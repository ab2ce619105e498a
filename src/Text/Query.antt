-- ===== src/Text/Query.antt =====
-- What a server reads from a URL's query: the description that the dashboard's URLs are held to.
-- A field ends at `&`, a name at `=`, a fragment begins at `#`; a value is percent-decoded to bytes,
-- and `+` stands for a space.
pub mod Scan
pub mod Decode
pub mod Fields
