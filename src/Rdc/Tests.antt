-- ===== src/Rdc/Tests.antt =====
-- The theorems on the readdir cache at concrete inputs.
use mathlib.Core.List.{Perm}
use mathlib.Core.Path.{subst}
use mathlib.Core.Option.{some-injective}
use mvfs.Prelude.{
  ℕ, ◌≡◌, ◌<◌, refl, true, false, List, [], ◌∷◌, ◌++◌, none, some, arith, leb, if◌then◌else◌,
  length,
}
use mvfs.Rdc.{Rce, Mnode, held, cache_enter, usable, unused}
use mvfs.Rdc.Blocks.{cached, cache_enter-blocks}
use mvfs.Rdc.Lookup.{slots_of, cache_enter-finds}

abbrev first_block : Rce
first_block = record {
  valid = true;
  eof = false;
  offset = 0;
  endoffset = 8;
  size = 60;
  bsize = 64;
  block = some 1;
}

abbrev next_block : Rce
next_block = record {
  valid = true;
  eof = true;
  offset = 8;
  endoffset = 12;
  size = 30;
  bsize = 64;
  block = some 2;
}

abbrev three_slots : List Rce
three_slots = first_block ∷ unused ∷ unused ∷ []

abbrev directory : Mnode
directory = record { rddir_cache = some three_slots; freed = [] }

has_slots : (es : List Rce) → some three_slots ≡ some es → 0 < length es
has_slots es e = subst (λ l. 0 < length l) (some-injective _ _ e) (omega arith)

cache_enter-blocks_example :
    (m' : Mnode) × (cache_enter true true 2 directory next_block ≡ some m')
    × Perm (cached m' ++ m'.freed) (held next_block ++ (cached directory ++ []))
cache_enter-blocks_example = cache_enter-blocks 2 directory next_block (omega arith) has_slots

cache_enter-finds_example :
    (m' : Mnode) × (cache_enter true true 2 directory next_block ≡ some m')
    × ((resid : ℕ)
        → usable (slots_of m') 8 resid ≡ (if leb 30 resid then some next_block else none))
cache_enter-finds_example =
    cache_enter-finds 2 directory next_block (omega arith) has_slots refl
      ((λ _. omega arith), ((λ e. cc), ((λ e. cc), tt)))
