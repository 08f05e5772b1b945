-- ===== src/Acl/Fetch/Within.antt =====
-- What the fetch keeps of an entry, and how many calls it makes.
use mvfs.Prelude.{ℕ, zero, suc, none, some, ◌≡◌, arith, refl, ◌∙◌, ◌+◌, ◌≤◌, ◌*◌}
use mvfs.Acl.Types.{Env, Mnode, cursor_null}
use mvfs.Acl.Fetch.{
  Fetch, clnt_get_eacl_mnp, called, receive, blocks_loop, scan_twice, finish, clear_eaclh,
  free_eaclh,
}

-- The same entry but for the list, and at most n calls more.
pub record Within (n : ℕ) (f g : Fetch) : Type 0 where
  pub key : g.entry.key ≡ f.entry.key
  pub refcnt : g.entry.refcnt ≡ f.entry.refcnt
  pub calls : g.world.calls ≤ f.world.calls + n

pub Within-trans : {m n : ℕ} {f g h : Fetch} → Within m f g → Within n g h → Within (m + n) f h
Within-trans a b = record {
  key = b.key ∙ a.key;
  refcnt = b.refcnt ∙ a.refcnt;
  calls = omega (arith, a.calls, b.calls);
}

Within-le : {m n : ℕ} {f g : Fetch} → m ≤ n → Within m f g → Within n f g
Within-le le a = record { key = a.key; refcnt = a.refcnt; calls = omega (arith, a.calls) }

clear_eaclh-Within : (f : Fetch) → Within 0 f (clear_eaclh f)
unfolding clear_eaclh free_eaclh
clear_eaclh-Within f = record { key = refl; refcnt = refl; calls = ground arith }

reset-Within : (f : Fetch) → Within 0 f (record (clear_eaclh f) { cursor = cursor_null })
reset-Within f =
    let c = clear_eaclh-Within f in record { key = c.key; refcnt = c.refcnt; calls = c.calls }

clnt-Within : (env : Env) (mnp : Mnode) (f : Fetch) → Within 1 f (clnt_get_eacl_mnp env mnp f)
unfolding clnt_get_eacl_mnp called receive
clnt-Within env mnp f = record { key = ground arith; refcnt = ground arith; calls = ground arith }

module _ (env : Env) (mnp : Mnode) where
  once-Within : (n : ℕ) (f : Fetch) → Within n f (blocks_loop env mnp none n f)
  unfolding blocks_loop
  once-Within zero f = record { key = refl; refcnt = refl; calls = omega arith }
  once-Within (suc n) f =
      let c = clnt-Within env mnp f in
      let ih = Within-trans c (once-Within n (clnt_get_eacl_mnp env mnp f)) in
      record {
        key = ground (arith, c.key, ih.key);
        refcnt = ground (arith, c.refcnt, ih.refcnt);
        calls = ground (arith, c.calls, ih.calls);
      }

  twice-Within :
      (again : Fetch → Fetch) (l : ℕ)
      → ((g : Fetch) → Within l g (again g))
      → (n : ℕ) (f : Fetch) → Within (n + l) f (blocks_loop env mnp (some again) n f)
  unfolding blocks_loop
  twice-Within again l w zero f = record { key = refl; refcnt = refl; calls = omega arith }
  twice-Within again l w (suc n) f =
      let g = clnt_get_eacl_mnp env mnp f in
      let c = clnt-Within env mnp f in
      let z = reset-Within g in
      let a =
        Within-trans c (Within-trans z (w (record (clear_eaclh g) { cursor = cursor_null }))) in
      let ih = Within-trans c (twice-Within again l w n g) in
      record {
        key = ground (arith, c.key, a.key, ih.key);
        refcnt = ground (arith, c.refcnt, a.refcnt, ih.refcnt);
        calls = ground (arith, c.calls, a.calls, ih.calls);
      }

  pub scan_twice-Within :
      (f : Fetch) → Within (2 * env.eacl_blocks_default) f (scan_twice env mnp f)
  unfolding scan_twice
  scan_twice-Within f = Within-le (omega arith) (
      twice-Within (blocks_loop env mnp none env.eacl_blocks_default) env.eacl_blocks_default
        (once-Within env.eacl_blocks_default) env.eacl_blocks_default f)

pub finish-Within : (f : Fetch) → Within 0 f (finish f)
unfolding finish clear_eaclh free_eaclh
finish-Within f = record { key = ground arith; refcnt = ground arith; calls = ground arith }
