-- ===== src/Sohash/Insert/Complete.antt =====
-- `sohash_insert_entry` in a table whose keys are unique adds the key to what the table holds, or
-- reports the entry that is there.
use mvfs.Prelude.{
  refl, Bool-cases, inl, inr, ◌==◌, true, false, Bool, ℕ, ◌+◌, ◌≡◌, ◌∙◌, List, ◌∷◌, Option, none,
  some, arith,
}
use mvfs.Sohash.Operations.{insert_reserved, insert_allocated, insert_entry, insert_node, Inserted}
use mvfs.Sohash.Chain.Heads.{All-ne_of_lt}
use mvfs.Sohash.Find.{reserved, refused, hp_get-Reserved}
use mvfs.Sohash.Bits.Mirror.{two-pow-pos}
use mvfs.Sohash.Buckets.{alloc_node}
use mvfs.Sohash.Invariant.Grown.{refreshed, refreshed-Keeps, refreshed-IsValid}
use mvfs.Sohash.Hazard.{at_hp, release_ref, hp_release}
use mvfs.Sohash.Invariant.{IsReady}
use mvfs.Sohash.Types.{Run, Entry, Table, Host, HazardRef, Errno}
use mvfs.Sohash.Insert.{Entered, entered, existing, asserted, not_entered, Keeps-IsReady}
use mvfs.Sohash.Insert.Node.{insert_node-Entered}

-- From a table that differs in what lookups and sizes do not read.
Entered-from :
    (env : Host) (t : Table) (hps : List HazardRef) (total n : ℕ) (freed : List ℕ) (key : ℕ)
    (content : Option ℕ) (run run' : Run (Table × Inserted))
    → run' ≡ run
    → Entered env (refreshed t hps total n freed) key content run
    → Entered env t key content run'
Entered-from env t hps total n freed key content run run' same
      (entered u node e valid ready count missing looks) =
    entered u node (same ∙ e) valid ready count missing looks
Entered-from env t hps total n freed key content run run' same
      (existing u old off e ready count found looks) =
    existing u old off (same ∙ e) ready count found looks
Entered-from env t hps total n freed key content run run' same (asserted old on e found) =
    asserted old on (same ∙ e) found
Entered-from env t hps total n freed key content run run' same
      (not_entered u err e ready count looks no_mem) =
    not_entered u err (same ∙ e) ready count looks no_mem

-- In a valid, active table with unique keys, whose size is a power of two up to `2 ^ 31` and within
-- its slots, an insertion of any key ends without an access outside an array and without a cut of
-- the list. It panics only if the build panics at a failed assertion and the table held an entry
-- under the reversed key; otherwise it leaves a valid table. If the table held no such entry, the node is in, it counts, and lookups of regular keys give it under that key and the
-- same as before under the others; with room to double its size, the table can be used again. If the
-- table held an entry and assertions are off, the insertion reports `EEXIST` with that entry, and
-- lookups are as before. Any
-- other error leaves the lookups as before, and there is none where the host refuses no request for
-- memory.
pub insert_entry-Entered :
    (env : Host) (t : Table) (key : ℕ) (content : Option ℕ) (matches : Entry → Bool)
    → IsReady t
    → t.keys_unique ≡ true
    → Entered env t key content (insert_entry env t key content matches)
unfolding insert_entry insert_reserved insert_allocated alloc_node hp_release
insert_entry-Entered env t key content matches ready unique = elim (hp_get-Reserved env t) [
  | refused no_mem run ↦
      let freed : List ℕ = elim content [ none ↦ t.freed | some d ↦ d ∷ t.freed ] in
      let keeps = refreshed-Keeps t t.hp_list t.hazard_ptrs_total (t.allocs + 1) freed in
      let valid =
        refreshed-IsValid t t.hp_list t.hazard_ptrs_total (t.allocs + 1) freed (omega arith)
          ready.valid in
      not_entered (refreshed t t.hp_list t.hazard_ptrs_total (t.allocs + 1) freed) Errno.enomem
        (rw (ready.active, run)) (Keeps-IsReady t _ ready valid keeps) refl (λ k. refl)
        (t.allocs, no_mem)
  | reserved hps total n i le run ↦ elim (Bool-cases (env.grant n)) [
    | inr no_mem ↦
        let freed : List ℕ = elim content [ none ↦ t.freed | some d ↦ d ∷ t.freed ] in
        let hps' = at_hp release_ref hps i in
        let keeps = refreshed-Keeps t hps' total (n + 1) freed in
        let valid = refreshed-IsValid t hps' total (n + 1) freed (omega (arith, le)) ready.valid in
        not_entered (refreshed t hps' total (n + 1) freed) Errno.enomem
          (rw (ready.active, run, no_mem)) (Keeps-IsReady t _ ready valid keeps) refl (λ k. refl)
          (n, no_mem)
    | inl mem ↦
        let u = refreshed t hps total (n + 1) t.freed in
        let valid = refreshed-IsValid t hps total (n + 1) t.freed (omega (arith, le)) ready.valid in
        let nonzero : (t.current_size == 0) ≡ false =
          ground (arith, ready.size, two-pow-pos ready.bits) in
        Entered-from env t hps total (n + 1) t.freed key content
          (insert_node env u n key content matches i) _ (rw (ready.active, run, mem, nonzero))
          (insert_node-Entered env u key n i content matches
            (Keeps-IsReady t u ready valid (refreshed-Keeps t hps total (n + 1) t.freed)) unique
            (All-ne_of_lt n t.allocs t.chain le ready.valid.fresh) (omega arith))
  ]
]
