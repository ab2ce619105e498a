-- ===== src/Home.antt =====
-- The pages without state of the dashboard: web/app/page.tsx, web/app/dashboard/page.tsx, and the
-- configuration of the build in web/next.config.mjs.
use pushfree.Common.{String, Bool, true, List, [], ◌∷◌, ◌≡◌, refl, some, ◌&&◌, str_eq, any, All}
use pushfree.Text.{append}
use pushfree.Layout.{NavItem, nav_items, is_active, normalize_path}

-- What the effect of the index page calls `router.replace` with.
abbrev pub home_replaced : String
home_replaced = "/dashboard"

-- A tile of the overview.
pub record Tile : Type 0 where
  pub href : String
  pub title : String
  pub text : String

abbrev pub tiles : List Tile
tiles =
    record {
      href = "/dashboard/apps";
      title = "Apps";
      text = "Create and revoke application tokens used by integrations.";
    }
    ∷ record {
      href = "/dashboard/messages";
      title = "Live messages";
      text = "Stream messages over SSE in real time as they are delivered.";
    }
    ∷ record {
      href = "/dashboard/quota";
      title = "Quota";
      text = "Inspect monthly message quota and the rate-limit headers.";
    }
    ∷ record {
      href = "/dashboard/quiet-hours";
      title = "Quiet hours";
      text = "Schedule a hold window for low-priority messages.";
    }
    ∷ []

-- The configuration; `outputFileTracingRoot` is the directory of the file.
pub record NextConfig : Type 0 where
  pub output : String
  pub base_path : String
  pub react_strict_mode : Bool
  pub unoptimized_images : Bool
  pub build_id : String

abbrev pub next_config : NextConfig
next_config = record {
  output = "export";
  base_path = "/admin";
  react_strict_mode = true;
  unoptimized_images = true;
  build_id = "pushfree";
}

-- Where a tile leads below the base path, the navigation marks the entry with the tile's address and
-- its title.
abbrev pub Marked : Tile → Type 0
Marked t =
    any (λ (e : NavItem). e.active && str_eq e.href t.href && str_eq e.label t.title)
      (nav_items (some (append next_config.base_path t.href)))
    ≡ true

-- Each tile of the overview leads to a page whose entry in the navigation bears the tile's title and
-- is marked there.
pub tiles-Marked : All Marked tiles
unfolding nav_items append normalize_path is_active
tiles-Marked = (refl, (refl, (refl, (refl, tt))))
