-- ===== src/Acl/Fetch/Update.antt =====
-- What an update of an entry comes to.
use mvfs.Acl.Fetch.Within.{finish-Within, Within-trans, scan_twice-Within}
use mathlib.Core.Option.{some-injective}
use mathlib.Core.Path.{subst}
use mvfs.Acl.Fetch.Steps.{blocks_loop-no_view, with_reply}
use mvfs.Prelude.{
  false, inr, ap, ◌⊎◌, inl, Bool-cases, sym, true, ℕ, zero, suc, Option, none, some, ◌≡◌, arith,
  refl, ◌∙◌, ◌+◌, ◌≤◌, ◌*◌,
}
use mvfs.Acl.Types.{Key, Env, World, Entry, Mnode, SidAcl, cursor_null}
use mvfs.Acl.Fetch.{
  false, Cursor, Reply, Fetch, blocks_loop, scan_twice, finish, clear_eaclh, update_eaclh, is_good,
  free_eaclh,
}
use mvfs.Acl.Fetch.Transfer.{
  blocks_loop-Taken, Rescanned, Taken, blocks_loop-after, after, Transfer, IsDone,
}

-- The variables with which the update starts.
abbrev start : Env → World → Entry → Fetch
start env w ep = record {
  entry = record ep { eaclh = none };
  world = free_eaclh ep.eaclh w;
  cursor = cursor_null;
  error = env.stack_error;
  status = env.stack_status;
}

free_eaclh-calls : (o : Option SidAcl) (w : World) → (free_eaclh o w).calls ≡ w.calls
unfolding free_eaclh
free_eaclh-calls none w = refl
free_eaclh-calls (some acl) w = refl

-- Whatever the view server answers, an update ends, keeps the key and the count of the entry, and
-- makes at most two calls for each block that the limit allows.
pub update_eaclh-ends :
    (env : Env) (mnp : Mnode) (w : World) (ep : Entry)
    → ((update_eaclh env mnp w ep).0.key ≡ ep.key)
      × ((update_eaclh env mnp w ep).0.refcnt ≡ ep.refcnt)
      × ((update_eaclh env mnp w ep).1.calls ≤ w.calls + 2 * env.eacl_blocks_default)
unfolding update_eaclh
update_eaclh-ends env mnp w ep =
    let s = scan_twice-Within env mnp (start env w ep) in
    let t = Within-trans s (finish-Within (scan_twice env mnp (start env w ep))) in
    (t.key, t.refcnt, omega (arith, t.calls, free_eaclh-calls ep.eaclh w))

finish-done : (f : Fetch) → IsDone f → finish f ≡ f
unfolding finish is_good
finish-done f d = ground arith

finish-held : (f : Fetch) (acl : SidAcl) → (finish f).entry.eaclh ≡ some acl → IsDone f
unfolding finish clear_eaclh is_good
finish-held f acl h = (ground arith, ground arith)

Transfer-ends :
    {env : Env} {key : Key} {last : Reply} {n : ℕ} {cursor : Cursor} {held : Option SidAcl} {k : ℕ}
    → Transfer env key last n cursor held k
    → last.cursor.next_offset ≡ 0
Transfer-ends (Transfer.whole q g z) = z
Transfer-ends (Transfer.block r q g z t) = Transfer-ends t

after-IsDone :
    (last : Reply) (k : ℕ) (f : Fetch) → last.cursor.next_offset ≡ 0 → IsDone (after last k f)
unfolding is_good
after-IsDone last k f z = (refl, z)

-- If the mnode has a view, and the calls from the next on make a whole transfer within the limit of blocks, then an
-- update makes just these calls, frees the list the entry had, and the entry has the list, the time and the
-- policy of the last reply.
pub update_eaclh-fetches :
    (env : Env) (mnp : Mnode) (w : World) (ep : Entry) (last : Reply) (k : ℕ)
    → mnp.has_view ≡ true
    → Transfer env ep.key last w.calls cursor_null none k
    → k ≤ env.eacl_blocks_default
    → update_eaclh env mnp w ep
      ≡ (with_reply last ep, record (free_eaclh ep.eaclh w) { calls = w.calls + k })
unfolding update_eaclh scan_twice
update_eaclh-fetches env mnp w ep last k view t le =
    let e =
      blocks_loop-after env mnp view (some (blocks_loop env mnp none env.eacl_blocks_default))
        env.eacl_blocks_default (start env w ep) last w.calls cursor_null none k
        (sym (free_eaclh-calls ep.eaclh w)) refl refl le t in
    rw
      (
        e,
        finish-done _ (after-IsDone last k (start env w ep) (Transfer-ends t)),
        free_eaclh-calls ep.eaclh w,
      )
      refl

-- The list of a whole transfer within the limit, from some call on, and what came with it.
pub record IsDelivered (env : Env) (mnp : Mnode) (ep res : Entry) : Type 0 where
  pub view : mnp.has_view ≡ true
  pub last : Reply
  pub first : ℕ
  pub count : ℕ
  bounded : count ≤ env.eacl_blocks_default
  pub transfer : Transfer env ep.key last first cursor_null none count
  pub entry : res ≡ with_reply last ep

module _ (env : Env) (mnp : Mnode) (view : mnp.has_view ≡ true) (ep : Entry) where
  -- A scan that starts with no list.
  abbrev Fresh : Fetch → Type 0
  Fresh f =
      (f.cursor ≡ cursor_null)
      × (f.entry.eaclh ≡ none)
      × ((r : Reply) → with_reply r f.entry ≡ with_reply r ep)

  Taken-IsDelivered :
      (m : ℕ) (f res : Fetch)
      → m ≤ env.eacl_blocks_default
      → Fresh f
      → Taken env mnp view m f res
      → IsDelivered env mnp ep res.entry
  Taken-IsDelivered m f res le (c, h, keeps) (last, k, lk, t, e) = record {
    view = view;
    last = last;
    first = f.world.calls;
    count = k;
    bounded = omega arith;
    transfer =
        subst (λ q. Transfer env q last f.world.calls cursor_null none k)
          (ap (λ x. x.key) (keeps last))
          (subst (λ o. Transfer env f.entry.key last f.world.calls cursor_null o k) h
            (subst (λ x. Transfer env f.entry.key last f.world.calls x f.entry.eaclh k) c t));
    entry = ap (λ x. x.entry) e ∙ keeps last;
  }

  loop_rounds :
      (restart : Option (Fetch → Fetch)) (m : ℕ) (f : Fetch)
      → suc m ≤ env.eacl_blocks_default
      → Fresh f
      → IsDone (blocks_loop env mnp restart (suc m) f)
      → IsDelivered env mnp ep (blocks_loop env mnp restart (suc m) f).entry
        ⊎ Rescanned env mnp view restart f (blocks_loop env mnp restart (suc m) f)
  loop_rounds restart m f le fresh d =
      elim (blocks_loop-Taken env mnp view restart (suc m) f (λ e. absurd (omega (arith, e))) d) [
        | inl t ↦ inl (Taken-IsDelivered (suc m) f _ le fresh t)
        | inr r ↦ inr r
      ]

  loop-IsDelivered :
      (restart : Option (Fetch → Fetch)) (m : ℕ) (f : Fetch) (acl : SidAcl)
      → m ≤ env.eacl_blocks_default
      → Fresh f
      → IsDone (blocks_loop env mnp restart m f)
      → (blocks_loop env mnp restart m f).entry.eaclh ≡ some acl
      → IsDelivered env mnp ep (blocks_loop env mnp restart m f).entry
        ⊎ Rescanned env mnp view restart f (blocks_loop env mnp restart m f)
  unfolding blocks_loop
  loop-IsDelivered restart zero f acl le (c, n, keeps) d h = absurd (cc)
  loop-IsDelivered restart (suc m) f acl le fresh d h = loop_rounds restart m f le fresh d

  scan_twice-IsDelivered :
      (f : Fetch) (acl : SidAcl)
      → Fresh f
      → IsDone (scan_twice env mnp f)
      → (scan_twice env mnp f).entry.eaclh ≡ some acl
      → IsDelivered env mnp ep (scan_twice env mnp f).entry
  unfolding scan_twice
  scan_twice-IsDelivered f acl fresh d h =
      elim (loop-IsDelivered (some (blocks_loop env mnp none env.eacl_blocks_default))
        env.eacl_blocks_default f acl (omega arith) fresh d h) [
          | inl whole ↦ whole
          | inr (again, g, e, r, q) ↦
              let p = q ∙ ap (λ x. x g) (sym (some-injective _ _ e)) in
              rw p
                (elim (loop-IsDelivered none env.eacl_blocks_default g acl (omega arith)
                  (r.cursor, r.unheld, λ x. r.keeps x ∙ fresh.2 x) (subst IsDone p d)
                  (ap (λ x. x.entry.eaclh) (sym p) ∙ h)) [
                    | inl whole ↦ whole
                    | inr (again', g', e', r', q') ↦ absurd (cc)
                  ])
        ]

blind_round :
    (env : Env) (mnp : Mnode) (restart : Option (Fetch → Fetch)) (m : ℕ) (f : Fetch)
    → f.entry.eaclh ≡ none
    → mnp.has_view ≡ false
    → (blocks_loop env mnp restart (suc m) f).entry.eaclh ≡ none
blind_round env mnp restart m f n v = rw (blocks_loop-no_view env mnp restart m f v) n

blind_scan :
    (env : Env) (mnp : Mnode) (restart : Option (Fetch → Fetch)) (m : ℕ) (f : Fetch)
    → f.entry.eaclh ≡ none
    → mnp.has_view ≡ false
    → (blocks_loop env mnp restart m f).entry.eaclh ≡ none
unfolding blocks_loop
blind_scan env mnp restart zero f n v = n
blind_scan env mnp restart (suc m) f n v = blind_round env mnp restart m f n v

held_not_none : {acl : SidAcl} → ◌≡◌ {A = Option SidAcl} none (some acl) → ⊥
held_not_none e = cc

blind_held :
    (env : Env) (mnp : Mnode) (f : Fetch)
    → (blocks_loop env mnp
        (some (blocks_loop env mnp none env.eacl_blocks_default))
        env.eacl_blocks_default
        f).entry.eaclh
      ≡ (scan_twice env mnp f).entry.eaclh
unfolding scan_twice
blind_held env mnp f = refl

-- If an entry has a list after an update, it is the list of a whole transfer that kept within the limit, all of
-- its replies without an error, with the time and the policy of the last reply, and the entry is otherwise as it was.
pub update_eaclh-IsDelivered :
    (env : Env) (mnp : Mnode) (w : World) (ep : Entry) (acl : SidAcl)
    → (update_eaclh env mnp w ep).0.eaclh ≡ some acl
    → IsDelivered env mnp ep (update_eaclh env mnp w ep).0
unfolding update_eaclh
update_eaclh-IsDelivered env mnp w ep acl h =
    let f = scan_twice env mnp (start env w ep) in
    let d = finish-held f acl h in
    let e = finish-done f d in
    elim (Bool-cases mnp.has_view) [
      | inl view ↦ rw e (
          scan_twice-IsDelivered env mnp view ep (start env w ep) acl (refl, refl, λ r. refl) d
            (ap (λ x. x.entry.eaclh) (sym e) ∙ h))
      | inr blind ↦
          let n =
            blind_scan env mnp (some (blocks_loop env mnp none env.eacl_blocks_default))
              env.eacl_blocks_default (start env w ep) refl blind in
          absurd (
            held_not_none (
              sym n
              ∙ (blind_held env mnp (start env w ep) ∙ (ap (λ x. x.entry.eaclh) (sym e) ∙ h))))
    ]
