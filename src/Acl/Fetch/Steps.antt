-- ===== src/Acl/Fetch/Steps.antt =====
-- One round of the loop over the blocks, by the reply of the view server.
use mvfs.Prelude.{
  inr, Bool-cases, inl, ◌⊎◌, ℕ, suc, true, false, Option, none, some, ◌==◌, ◌&&◌, ◌≡◌, refl, ◌≢◌,
  arith, ◌+◌,
}
use mvfs.Acl.Permission.{tbs_st_ok}
use mvfs.Acl.Types.{Env, Entry, Mnode, Reply}
use mvfs.Acl.Fetch.{
  esrch, clear_eaclh, cursor_null, is_stale, blocks_loop, is_good, Fetch, clnt_get_eacl_mnp, called,
  receive,
}

-- A reply without an error.
pub record IsGood (r : Reply) : Type 0 where
  pub error : r.error ≡ 0
  pub status : r.status ≡ tbs_st_ok

-- An entry with what a reply brought.
abbrev pub with_reply : Reply → Entry → Entry
with_reply r ep = record ep { eaclh = r.eaclh; eacl_lut = r.eacl_mtime; policy_oid = r.policy_oid }

-- The reply to the call that comes next.
abbrev pub answer : Env → Fetch → Reply
answer env f = env.call f.world.calls f.entry.key f.cursor f.entry.eaclh

-- The variables after a good reply.
abbrev pub accepted : Reply → Fetch → Fetch
accepted r f = record f {
  entry = with_reply r f.entry;
  world = record f.world { calls = f.world.calls + 1 };
  cursor = r.cursor;
  error = 0;
  status = tbs_st_ok;
}

-- The state in which a second scan starts.
pub record Restarted (f g : Fetch) : Type 0 where
  pub unheld : g.entry.eaclh ≡ none
  pub cursor : g.cursor ≡ cursor_null
  pub keeps : (r : Reply) → with_reply r g.entry ≡ with_reply r f.entry

module _ (env : Env) (mnp : Mnode) (view : mnp.has_view ≡ true) where
  clnt-good :
      (f : Fetch) → IsGood (answer env f) → clnt_get_eacl_mnp env mnp f ≡ accepted (answer env f) f
  unfolding clnt_get_eacl_mnp called receive
  clnt-good f g = let e = g.error in let s = g.status in ground arith

  -- What the call does otherwise: the list is not there any more.
  clnt-bad :
      (f : Fetch)
      → ((answer env f).error == 0) && ((answer env f).status == tbs_st_ok) ≡ false
      → (is_good (clnt_get_eacl_mnp env mnp f) ≡ false)
        × ((clnt_get_eacl_mnp env mnp f).entry.eaclh ≡ none)
  unfolding clnt_get_eacl_mnp called receive is_good
  clnt-bad f b = (ground arith, ground arith)

  -- A good reply with a null offset ends the loop.
  pub blocks_loop-last :
      (restart : Option (Fetch → Fetch)) (n : ℕ) (f : Fetch)
      → IsGood (answer env f)
      → (answer env f).cursor.next_offset ≡ 0
      → blocks_loop env mnp restart (suc n) f ≡ accepted (answer env f) f
  unfolding blocks_loop is_good is_stale
  blocks_loop-last none n f g z = rw (clnt-good f g) (ground arith)
  blocks_loop-last (some again) n f g z = rw (clnt-good f g) (ground arith)

  -- A good reply with another offset leads to the next call.
  pub blocks_loop-more :
      (restart : Option (Fetch → Fetch)) (n : ℕ) (f : Fetch)
      → IsGood (answer env f)
      → (answer env f).cursor.next_offset ≢ 0
      → blocks_loop env mnp restart (suc n) f
        ≡ blocks_loop env mnp restart n (accepted (answer env f) f)
  unfolding blocks_loop is_good is_stale
  blocks_loop-more none n f g z = rw (clnt-good f g) (ground arith)
  blocks_loop-more (some again) n f g z = rw (clnt-good f g) (ground arith)

  clnt-Restarted :
      (f : Fetch)
      → Restarted f (record (clear_eaclh (clnt_get_eacl_mnp env mnp f)) { cursor = cursor_null })
  unfolding clnt_get_eacl_mnp called receive clear_eaclh
  clnt-Restarted f = record { unheld = refl; cursor = refl; keeps = λ r. ground arith }

  -- After any other reply the loop ends badly, or a second scan starts.
  pub blocks_loop-bad :
      (restart : Option (Fetch → Fetch)) (n : ℕ) (f : Fetch)
      → ((answer env f).error == 0) && ((answer env f).status == tbs_st_ok) ≡ false
      → (is_good (blocks_loop env mnp restart (suc n) f) ≡ false)
        ⊎ ((again : Fetch → Fetch) × (g : Fetch) × (restart ≡ some again)
            × Restarted f g
            × (blocks_loop env mnp restart (suc n) f ≡ again g))
  unfolding blocks_loop
  blocks_loop-bad none n f b = let c = clnt-bad f b in inl (ground arith)
  blocks_loop-bad (some again) n f b =
      let c = clnt-bad f b in
      elim (Bool-cases (is_stale (clnt_get_eacl_mnp env mnp f))) [
        | inl s ↦ inr (
          again,
          record (clear_eaclh (clnt_get_eacl_mnp env mnp f)) { cursor = cursor_null },
          refl,
          clnt-Restarted f,
          ground arith,
        )
        | inr s ↦ inl (ground arith)
      ]

-- With no view nothing is fetched.
pub blocks_loop-no_view :
    (env : Env) (mnp : Mnode) (restart : Option (Fetch → Fetch)) (n : ℕ) (f : Fetch)
    → mnp.has_view ≡ false
    → blocks_loop env mnp restart (suc n) f ≡ record f { error = esrch; status = tbs_st_ok }
unfolding blocks_loop clnt_get_eacl_mnp is_good is_stale
blocks_loop-no_view env mnp none n f e = ground arith
blocks_loop-no_view env mnp (some again) n f e = ground arith
