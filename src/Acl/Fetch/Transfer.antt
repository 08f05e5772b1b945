-- ===== src/Acl/Fetch/Transfer.antt =====
-- A list comes in blocks: what a transfer is, and that the update delivers just a whole transfer.
use mvfs.Prelude.{
  ==_iff, ◌&&◌, ◌==◌, inr, inl, Bool-cases, ◌⊎◌, ℕ, zero, suc, true, Option, ◌≡◌, ◌≢◌, arith, refl,
  sym, ap, ◌∙◌, ◌+◌, ◌≤◌,
}
use mathlib.Core.Path.{subst}
use mvfs.Acl.Permission.{tbs_st_ok}
use mvfs.Acl.Types.{Env, Mnode, Cursor, Reply, SidAcl, Key}
use mvfs.Acl.Fetch.{false, some, Fetch, blocks_loop, is_good}
use mvfs.Acl.Fetch.Steps.{
  blocks_loop-bad, Restarted, IsGood, with_reply, answer, accepted, blocks_loop-last,
  blocks_loop-more,
}

-- A sequence of calls, the first with number n, each with the cursor and the list that the one
-- before has returned, all good, and only the last with a null offset: its reply, and how many.
pub data Transfer (env : Env) (key : Key) (last : Reply)
    : ℕ → Cursor → Option SidAcl → ℕ → Type 0 where
  whole :
      {n : ℕ} {cursor : Cursor} {held : Option SidAcl}
      → last ≡ env.call n key cursor held
      → IsGood last
      → last.cursor.next_offset ≡ 0
      → Transfer env key last n cursor held (suc zero)
  block :
      {n k : ℕ} {cursor : Cursor} {held : Option SidAcl} (r : Reply)
      → r ≡ env.call n key cursor held
      → IsGood r
      → r.cursor.next_offset ≢ 0
      → Transfer env key last (n + 1) r.cursor r.eaclh k
      → Transfer env key last n cursor held (suc k)

-- The next call of the variables, and how many there are.
abbrev Remaining : Env → Reply → Fetch → ℕ → Type 0
Remaining env last f k = Transfer env f.entry.key last f.world.calls f.cursor f.entry.eaclh k

-- The variables at the end of a transfer.
abbrev pub after : Reply → ℕ → Fetch → Fetch
after last k f = record f {
  entry = with_reply last f.entry;
  world = record f.world { calls = f.world.calls + k };
  cursor = last.cursor;
  error = 0;
  status = tbs_st_ok;
}

-- What the loop has when it is done with a good list.
abbrev pub IsDone : Fetch → Type 0
IsDone f = (is_good f ≡ true) × (f.cursor.next_offset ≡ 0)

module _ (env : Env) (mnp : Mnode) (view : mnp.has_view ≡ true) where
  loop-last :
      (restart : Option (Fetch → Fetch)) (m : ℕ) (f : Fetch) (r : Reply)
      → r ≡ answer env f
      → IsGood r
      → r.cursor.next_offset ≡ 0
      → blocks_loop env mnp restart (suc m) f ≡ accepted r f
  loop-last restart m f r q g z =
      blocks_loop-last env mnp view restart m f (subst IsGood q g)
        (ap (λ x. x.cursor.next_offset) (sym q) ∙ z)
      ∙ ap (λ x. accepted x f) (sym q)

  loop-more :
      (restart : Option (Fetch → Fetch)) (m : ℕ) (f : Fetch) (r : Reply)
      → r ≡ answer env f
      → IsGood r
      → r.cursor.next_offset ≢ 0
      → blocks_loop env mnp restart (suc m) f ≡ blocks_loop env mnp restart m (accepted r f)
  loop-more restart m f r q g z =
      blocks_loop-more env mnp view restart m f (subst IsGood q g)
        (λ e. z (ap (λ x. x.cursor.next_offset) q ∙ e))
      ∙ ap (λ x. blocks_loop env mnp restart m (accepted x f)) (sym q)

  -- A whole transfer within the limit is taken to its end.
  pub blocks_loop-after :
      (restart : Option (Fetch → Fetch)) (m : ℕ) (f : Fetch) (last : Reply) (n : ℕ)
      (cursor : Cursor) (held : Option SidAcl) (k : ℕ)
      → n ≡ f.world.calls
      → cursor ≡ f.cursor
      → held ≡ f.entry.eaclh
      → k ≤ m
      → Transfer env f.entry.key last n cursor held k
      → blocks_loop env mnp restart m f ≡ after last k f
  blocks_loop-after restart zero f last n cursor held k en ec eh le (Transfer.whole q g z) =
      absurd (omega arith)
  blocks_loop-after restart (suc m) f last n cursor held k en ec eh le (Transfer.whole q g z) =
      loop-last restart m f last (rw (← en, ← ec, ← eh) q) g z
  blocks_loop-after restart zero f last n cursor held k en ec eh le (Transfer.block r q g z t) =
      absurd (omega arith)
  blocks_loop-after restart (suc m) f last n cursor held k en ec eh le
        (Transfer.block {k = k'} r q g z t) =
      loop-more restart m f r (rw (← en, ← ec, ← eh) q) g z
      ∙ (blocks_loop-after restart m (accepted r f) last (n + 1) r.cursor r.eaclh k'
            (ap (λ x. x + 1) en) refl refl (omega arith) t
          ∙ ap (λ c. record (after last 0 f) { world = record f.world { calls = c } })
              (omega arith))

  -- A loop that is done has taken a whole transfer to its end, or has begun a second scan.
  abbrev pub Taken : ℕ → Fetch → Fetch → Type 0
  Taken m f res =
      (last : Reply) × (k : ℕ) × (k ≤ m) × Remaining env last f k × (res ≡ after last k f)

  abbrev pub Rescanned : Option (Fetch → Fetch) → Fetch → Fetch → Type 0
  Rescanned restart f res =
      (again : Fetch → Fetch) × (g : Fetch) × (restart ≡ some again)
      × Restarted f g
      × (res ≡ again g)

  not_done : (f : Fetch) → is_good f ≡ false → IsDone f → ⊥
  not_done f b d = ground arith

  loop_end :
      (restart : Option (Fetch → Fetch)) (f : Fetch)
      → IsDone (blocks_loop env mnp restart zero f)
      → f.cursor.next_offset ≡ 0
  unfolding blocks_loop
  loop_end restart f d = d.1

  take_block :
      (restart : Option (Fetch → Fetch)) (m : ℕ) (f : Fetch)
      → IsGood (answer env f)
      → (answer env f).cursor.next_offset ≢ 0
      → (Taken m (accepted (answer env f) f) (blocks_loop env mnp restart (suc m) f)
          ⊎ Rescanned restart (accepted (answer env f) f) (blocks_loop env mnp restart (suc m) f))
      → Taken (suc m) f (blocks_loop env mnp restart (suc m) f)
        ⊎ Rescanned restart f (blocks_loop env mnp restart (suc m) f)
  take_block restart m f g z (inl (last, k, le, t, e)) = inl (
    last,
    suc k,
    omega arith,
    Transfer.block (answer env f) refl g z t,
    e ∙ ap (λ c. record (after last 0 f) { world = record f.world { calls = c } }) (omega arith),
  )
  take_block restart m f g z (inr (again, h, e, r, q)) =
      inr (again, h, e, record { unheld = r.unheld; cursor = r.cursor; keeps = r.keeps }, q)

  IsGood-answer : (r : Reply) → (((r.error == 0) && (r.status == tbs_st_ok)) ≡ true) → IsGood r
  IsGood-answer r e = record { error = ground arith; status = ground arith }

  pub blocks_loop-Taken :
      (restart : Option (Fetch → Fetch)) (m : ℕ) (f : Fetch)
      → (m ≡ 0 → f.cursor.next_offset ≢ 0)
      → IsDone (blocks_loop env mnp restart m f)
      → Taken m f (blocks_loop env mnp restart m f)
        ⊎ Rescanned restart f (blocks_loop env mnp restart m f)
  blocks_loop-Taken restart zero f h d = absurd (h refl (loop_end restart f d))
  blocks_loop-Taken restart (suc m) f h d =
      elim (Bool-cases (((answer env f).error == 0) && ((answer env f).status == tbs_st_ok))) [
        | inr b ↦ elim (blocks_loop-bad env mnp view restart m f b) [
          | inl bad ↦ absurd (not_done _ bad d)
          | inr again ↦ inr again
        ]
        | inl ok ↦
            let g = IsGood-answer (answer env f) ok in
            elim (Bool-cases ((answer env f).cursor.next_offset == 0)) [
              | inl z ↦
                  let o = (==_iff _ 0).0 z in
                  inl (
                    answer env f,
                    1,
                    omega arith,
                    Transfer.whole refl g o,
                    blocks_loop-last env mnp view restart m f g o,
                  )
              | inr z ↦
                  let o : (answer env f).cursor.next_offset ≢ 0 = (λ e. ground (arith, e)) in
                  let q = blocks_loop-more env mnp view restart m f g o in
                  take_block restart m f g o (
                    subst
                      (λ res.
                        Taken m (accepted (answer env f) f) res
                        ⊎ Rescanned restart (accepted (answer env f) f) res)
                      (sym q)
                      (blocks_loop-Taken restart m (accepted (answer env f) f) (λ _. o)
                        (subst IsDone q d)))
            ]
      ]
