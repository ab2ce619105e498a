-- ===== src/Messages/Feed.antt =====
-- The message listener of web/app/dashboard/messages/page.tsx over a run of frames.
use pushfree.Common.{
  ℕ, String, Option, none, some, List, [], ◌∷◌, ◌≡◌, refl, ap, ◌∙◌, take, take-cons-take,
}
use pushfree.Messages.{LiveMessage, State, frame, handle, receive}

-- The messages of the frames that are JSON, newest first, as an unbounded log would have them.
abbrev pub newest_first : List (Option LiveMessage) → List LiveMessage → List LiveMessage
newest_first [] log = log
newest_first (none ∷ fs) log = newest_first fs log
newest_first (some m ∷ fs) log = newest_first fs (m ∷ log)

-- The page after frames of one source, in the order in which they came.
unfoldable pub run_frames : String → ℕ → List (Option LiveMessage) → State → State
run_frames base i [] s = s
run_frames base i (f ∷ fs) s = run_frames base i fs (handle base (frame i f) s).0

receive-take :
    (f : Option LiveMessage) (fs : List (Option LiveMessage)) (log : List LiveMessage) (s : State)
    → s.events ≡ take 200 log
    → (more : List LiveMessage) × (receive f s.events ≡ take 200 more)
      × (newest_first fs more ≡ newest_first (f ∷ fs) log)
unfolding receive
receive-take none fs log s h = (log, h, refl)
receive-take (some m) fs log s h =
    (m ∷ log, ap (λ es. take 200 (m ∷ es)) h ∙ take-cons-take 200 m log, refl)

-- A log that shows the two hundred newest of what has come goes on to do so: after any further
-- frames it shows the two hundred newest of all, newest first. Frames that are no JSON do not count,
-- and stop nothing.
pub events-run_frames :
    (base : String) (i : ℕ) (fs : List (Option LiveMessage)) (log : List LiveMessage) (s : State)
    → s.events ≡ take 200 log
    → (run_frames base i fs s).events ≡ take 200 (newest_first fs log)
unfolding run_frames handle
events-run_frames base i [] log s h = h
events-run_frames base i (f ∷ fs) log s h =
    let (more, kept, same) = receive-take f fs log s h in
    events-run_frames base i fs more (handle base (frame i f) s).0 kept ∙ ap (take 200) same
