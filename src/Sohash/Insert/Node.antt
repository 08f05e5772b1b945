-- ===== src/Sohash/Insert/Node.antt =====
-- `sohash_insert_entry` from the bucket on.
use native.Mathlib.Nat.{mod-lt}
use mvfs.Prelude.{
  Bool-cases, refl, ltb, ap, if◌then◌else◌, inl, inr, Option-cases, ◌/◌, ◌==◌, ◌<◌, ◌≤◌, sym, true,
  ◌≢◌, All, Bool, ℕ, ◌+◌, ◌*◌, ◌%◌, ◌^◌, ◌≡◌, ◌∙◌, List, ◌∷◌, ◌++◌, Option, none, some, arith,
}
use mvfs.Sohash.Operations.{grow, insert_node, bucket_of, regular_node, indices_of}
use mvfs.Sohash.Find.{bucket_of-Outcome, before_key}
use mvfs.Sohash.Bits.{sentinelkey, regularkey}
use mvfs.Sohash.Bits.Mirror.{two-pow-pos}
use mvfs.Sohash.Chain.Insert.{exists, added, list_insert-cases}
use mvfs.Sohash.Invariant.Grown.{grown, grown-IsValid, refreshed-Keeps, refreshed-IsValid}
use mvfs.Sohash.Hazard.{at_hp, clear_ref, release_ref, data_of, hp_release, free_node}
use mvfs.Sohash.Invariant.{Keeps-trans, IsReady}
use mvfs.Sohash.Invariant.Install.{Outcome}
use mvfs.Sohash.Chain.{list_insert}
use mvfs.Sohash.Types.{◌>>=◌, ok, Entry, Table, Host, Errno, is_active}
use mvfs.Sohash.Chain.Look.{look}
use mvfs.Sohash.Buckets.Slots.{capacity}
use mvfs.Sohash.Insert.{
  Entered, entered, existing, asserted, not_entered, Keeps-IsReady, tallied, tallied-IsValid,
  doubled, look-insert,
}

-- With a reference and a node at hand.
module _ (env : Host) (t : Table) (key a i : ℕ) (content : Option ℕ) (matches : Entry → Bool)
    (ready : IsReady t) (unique : t.keys_unique ≡ true) (here : All (λ y. a ≢ y.addr) t.chain)
    (used : a < t.allocs) where
  abbrev node : Table → ℕ → Entry
  node b head = record (regular_node a key (key % t.current_size) content) {
    segment_index = (indices_of head b.chain).0;
    bucket_index = (indices_of head b.chain).1;
  }

  insert_without_bucket :
      (b : Outcome env t (key % t.current_size) (bucket_of env t (key % t.current_size) i))
      → b.result ≡ none
      → Entered env t key content (insert_node env t a key content matches i)
  unfolding insert_node hp_release free_node
  insert_without_bucket b e =
      let hps = at_hp release_ref b.after.hp_list i in
      let freed = data_of (regular_node a key (key % t.current_size) content) ++ b.after.freed in
      let keeps = refreshed-Keeps b.after hps b.after.hazard_ptrs_total b.after.allocs freed in
      let valid =
        refreshed-IsValid b.after hps b.after.hazard_ptrs_total b.after.allocs freed (omega arith)
          b.valid in
      not_entered _ Errno.efault (rw (b.runs, ◌>>=◌, e))
        (Keeps-IsReady t _ ready valid (Keeps-trans b.keeps keeps)) b.keeps.count b.keeps.looks
        (b.refused ready.active e)

  insert_existing :
      (b : Outcome env t (key % t.current_size) (bucket_of env t (key % t.current_size) i))
      (head : ℕ) (old : Entry)
      → b.result ≡ some head
      → look (regularkey key) b.after.chain ≡ some (old.addr, old.content)
      → list_insert b.after head (node b.after head) matches i
        ≡ ok (record b.after { hp_list = at_hp clear_ref b.after.hp_list i }, some old)
      → Entered env t key content (insert_node env t a key content matches i)
  unfolding insert_node hp_release free_node
  insert_existing b head old e looked run =
      let hps = at_hp release_ref (at_hp clear_ref b.after.hp_list i) i in
      let freed = data_of (node b.after head) ++ b.after.freed in
      let keeps = refreshed-Keeps b.after hps b.after.hazard_ptrs_total b.after.allocs freed in
      let valid =
        refreshed-IsValid b.after hps b.after.hazard_ptrs_total b.after.allocs freed (omega arith)
          b.valid in
      elim (Bool-cases env.asserts) [
        | inl y ↦ asserted old y (rw (b.runs, ◌>>=◌, e, run, y)) (sym (b.keeps.looks key) ∙ looked)
        | inr n ↦
            existing _ old n (rw (b.runs, ◌>>=◌, e, run, n))
              (Keeps-IsReady t _ ready valid (Keeps-trans b.keeps keeps)) b.keeps.count
              (sym (b.keeps.looks key) ∙ looked) b.keeps.looks
      ]

  insert_added :
      (b : Outcome env t (key % t.current_size) (bucket_of env t (key % t.current_size) i))
      (head : ℕ) (xs ys : List Entry)
      → b.result ≡ some head
      → b.after.chain ≡ xs ++ ys
      → All (λ e. e.reverse_so_key ≤ regularkey key) xs
      → All (λ e. regularkey key < e.reverse_so_key) ys
      → look (regularkey key) b.after.chain ≡ none
      → list_insert b.after head (node b.after head) matches i
        ≡ ok (
          record b.after {
            hp_list = at_hp clear_ref b.after.hp_list i;
            chain = xs ++ (node b.after head ∷ ys);
          },
          none,
        )
      → Entered env t key content (insert_node env t a key content matches i)
  unfolding insert_node hp_release grow
  insert_added b head xs ys e cut low high missing run =
      let n = node b.after head in
      let hps = at_hp clear_ref b.after.hp_list i in
      let count = (b.after.regularkey_count + 1) % 2 ^ 32 in
      let more = ltb 1 (count / b.after.current_size) in
      let size = if more then b.after.current_size * 2 % 2 ^ 32 else b.after.current_size in
      let apart = b.absent a used here in
      let grown_valid =
        grown-IsValid b.after hps b.after.hazard_ptrs_total b.after.allocs b.after.freed b.valid
          (omega arith) xs ys n cut low high apart (omega (arith, used, b.later)) in
      let u =
        tallied
          (grown b.after hps b.after.hazard_ptrs_total b.after.allocs b.after.freed b.valid
            (omega arith) xs ys n cut low high apart (omega (arith, used, b.later)))
          (at_hp release_ref hps i) count size in
      let valid = tallied-IsValid _ (at_hp release_ref hps i) count size grown_valid in
      let wide : capacity b.after ≡ capacity t = rw (b.keeps.wide, b.keeps.sz) in
      entered u n (rw (b.runs, ◌>>=◌, e, run)) valid
        (λ room.
          let (m, m31, is_pow, within) =
            doubled more b.after.current_size ready.bits (capacity b.after)
              (b.keeps.size ∙ ready.size) ready.word (omega (arith, room, wide, b.keeps.size))
              b.valid.small in
          record {
            valid = valid;
            active = ap is_active b.keeps.state ∙ ready.active;
            bits = m;
            word = m31;
            size = is_pow;
            room = within;
          })
        (ap (λ c. (c + 1) % 2 ^ 32) b.keeps.count) (sym (b.keeps.looks key) ∙ missing)
        (λ k.
          look-insert (regularkey key) (regularkey k) xs ys n refl
            (ap (look (regularkey key)) (sym cut) ∙ missing)
          ∙ ap (λ o. if regularkey key == regularkey k then some (a, content) else o)
              (ap (look (regularkey k)) (sym cut) ∙ b.keeps.looks k))

  pub insert_node-Entered : Entered env t key content (insert_node env t a key content matches i)
  insert_node-Entered =
      let h = key % t.current_size in
      let below : h < t.current_size =
        mod-lt key (omega (arith, ready.size, two-pow-pos ready.bits)) in
      let b = bucket_of-Outcome env t h i ready.valid (omega (arith, below, ready.room)) in
      let wide : capacity b.after ≡ capacity t = rw (b.keeps.wide, b.keeps.sz) in
      elim (Option-cases b.result) [
        | inl e ↦ insert_without_bucket b e
        | inr (head, e) ↦
            elim (list_insert-cases b.after head (sentinelkey h) (node b.after head) matches i
              b.valid.sorted
              (b.valid.heads h head (omega (arith, below, ready.room, wide)) (b.slotted head e))
              (before_key t key ready)) [
                | exists xs ys old cut keyed looked run ↦
                    insert_existing b head old e (looked (b.keeps.unique ∙ unique) refl) run
                | added xs ys cut low high looked run ↦
                    insert_added b head xs ys e cut low high (looked (b.keeps.unique ∙ unique) refl)
                      run
              ]
      ]
