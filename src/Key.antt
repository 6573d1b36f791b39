-- ===== src/Key.antt =====
-- include/omx/Key.h and src/Key.cpp: a key is its 64-bit id. The hash of a key only places it within an
-- unordered map.
use open_x_database.Shared.{ℕ, Bool, ltb, ◌==◌}

abbrev pub same_key : ℕ → ℕ → Bool
same_key id other = id == other

abbrev pub less_key : ℕ → ℕ → Bool
less_key id other = ltb id other
