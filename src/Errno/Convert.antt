-- ===== src/Errno/Convert.antt =====
-- Errno values survive the way to a status code and back; a status code becomes an errno value.
use mathlib.Core.Option.{some-injective}
use mathlib.Core.Path.{subst}
use mvfs.Prelude.{
  not, sym, false, ◌&&◌, true-ne-false, ◌≤◌, Bool, true, Option-cases, ℕ, zero, suc, [], ◌∷◌,
  Option, none, some, ◌==◌, ◌≡◌, ◌≢◌, ◌<◌, ◌⊎◌, inl, inr, arith, refl, ap, ◌∙◌, All, Bool-cases,
  ==_iff, ◌↔◌,
}
use mvfs.Errno.{
  ℤ, eio, tbs_st_err, tbs_stbase, Cases, select, status_cases, errno_cases, status_default,
  status2errno, errno2status,
}

-- A case that is selected is one of the list.
select-All :
    (P : ℕ → ℕ → Type 0) (cs : Cases) (n r : ℕ)
    → All (λ c. P c.0 c.1) cs
    → select cs n ≡ some r
    → P n r
unfolding select
select-All P [] n r h e = absurd (cc)
select-All P ((c, s) ∷ rest) n r h e = elim (Bool-cases (c == n)) [
  | inl y ↦
      subst (λ x. P x r) ((==_iff c n).0 y)
        (subst (λ x. P c x) (some-injective s r (ground arith)) h.0)
  | inr m ↦ select-All P rest n r h.1 (ground arith)
]

-- Each errno value that has a status code comes back from it.
errno_cases-back : All (λ c. status2errno (ℤ.pos c.1) ≡ ℤ.pos c.0) errno_cases
unfolding status2errno select
errno_cases-back = (
  refl,
  (
    refl,
    (
      refl,
      (
        refl,
        (
          refl,
          (
            refl,
            (
              refl,
              (
                refl,
                (
                  refl,
                  (
                    refl,
                    (
                      refl,
                      (
                        refl,
                        (
                          refl,
                          (
                            refl,
                            (
                              refl,
                              (
                                refl,
                                (refl, (refl, (refl, (refl, (refl, (refl, (refl, (refl, tt)))))))),
                              ),
                            ),
                          ),
                        ),
                      ),
                    ),
                  ),
                ),
              ),
            ),
          ),
        ),
      ),
    ),
  ),
)

status_cases-small : All (λ c. (c.1 < tbs_stbase) × (c.1 ≢ 0) × (c.0 ≢ 0)) status_cases
status_cases-small = omega arith

err_default : status2errno (ℤ.pos tbs_st_err) ≡ ℤ.pos eio
unfolding status2errno select status_default
err_default = refl

err_negative : (n : ℕ) → errno2status (ℤ.negsuc n) ≡ ℤ.pos tbs_st_err
unfolding errno2status
err_negative n = refl

errno_some : (e s : ℕ) → select errno_cases e ≡ some s → errno2status (ℤ.pos e) ≡ ℤ.pos s
unfolding errno2status
errno_some e s q = rw (q, errno2status) refl

errno_none : (e : ℕ) → select errno_cases e ≡ none → errno2status (ℤ.pos e) ≡ ℤ.pos tbs_st_err
unfolding errno2status
errno_none e q = rw (q, errno2status) refl

back_or_err :
    (e : ℕ) (o : Option ℕ)
    → select errno_cases e ≡ o
    → (status2errno (errno2status (ℤ.pos e)) ≡ ℤ.pos e)
      ⊎ ((errno2status (ℤ.pos e) ≡ ℤ.pos tbs_st_err)
          × (status2errno (errno2status (ℤ.pos e)) ≡ ℤ.pos eio))
unfolding errno2status
back_or_err e none q = inr (errno_none e q, ap status2errno (errno_none e q) ∙ err_default)
back_or_err e (some s) q = inl (
    ap status2errno (errno_some e s q)
    ∙ select-All (λ c r. status2errno (ℤ.pos r) ≡ ℤ.pos c) errno_cases e s errno_cases-back q)

pos_injective : (a b : ℕ) → ℤ.pos a ≡ ℤ.pos b → a ≡ b
pos_injective a b e = cc

-- Whether the errno value has a status code of its own.
abbrev specific : Option ℕ → Bool
specific none = false
specific (some s) = not (s == tbs_st_err)

abbrev has_case : ℕ → Bool
has_case e = specific (select errno_cases e)

abbrev covered : Cases → Bool
covered [] = true
covered ((c, e) ∷ rest) = has_case e && covered rest

status_cases-covered : covered status_cases ≡ true
unfolding select
status_cases-covered = refl

eio_case : has_case eio ≡ true
unfolding select
eio_case = refl

covered-select :
    (cs : Cases) (n e : ℕ) → covered cs ≡ true → select cs n ≡ some e → has_case e ≡ true
unfolding select
covered-select [] n e h q = absurd (cc)
covered-select ((c, r) ∷ rest) n e h q = elim (Bool-cases (c == n)) [
  | inl y ↦ subst (λ x. has_case x ≡ true) (some-injective r e (ground arith)) (ground arith)
  | inr m ↦ covered-select rest n e (ground arith) (ground arith)
]

has_case-specific : (e : ℕ) → has_case e ≡ true → errno2status (ℤ.pos e) ≢ ℤ.pos tbs_st_err
has_case-specific e h z = elim (Option-cases (select errno_cases e)) [
  | inl q ↦ absurd (true-ne-false (sym h ∙ ap specific q))
  | inr (s, q) ↦
      let same : s ≡ tbs_st_err = pos_injective s tbs_st_err (sym (errno_some e s q) ∙ z) in
      absurd (true-ne-false (sym h ∙ (ap specific q ∙ ap (λ x. not (x == tbs_st_err)) same)))
]

pos-ne-negsuc : (a b : ℕ) → ℤ.pos a ≢ ℤ.negsuc b
pos-ne-negsuc a b e = cc

-- No status code becomes the number.
abbrev pub IsUnreached : ℤ → Type 0
IsUnreached n = (s : ℕ) → tbs_stbase ≤ s → status2errno (ℤ.pos s) ≢ n

reached-has_case : (s e : ℕ) → tbs_stbase ≤ s → status2errno (ℤ.pos s) ≡ ℤ.pos e → has_case e ≡ true
unfolding status2errno status_default
reached-has_case s e le z = elim (Option-cases (select status_cases s)) [
  | inl q ↦
      let is_eio : status2errno (ℤ.pos s) ≡ ℤ.pos eio = rw (q, status2errno) (ground (arith, le)) in
      subst (λ x. has_case x ≡ true) (pos_injective eio e (sym is_eio ∙ z)) eio_case
  | inr (r, q) ↦
      let is_r : status2errno (ℤ.pos s) ≡ ℤ.pos r = rw (q, status2errno) refl in
      subst (λ x. has_case x ≡ true) (pos_injective r e (sym is_r ∙ z))
        (covered-select status_cases s r status_cases-covered q)
]

errno_cases-above : All (λ c. tbs_stbase ≤ c.1) errno_cases
errno_cases-above = omega arith

unspecified_iff : (e : ℕ) → (errno2status (ℤ.pos e) ≡ ℤ.pos tbs_st_err) ↔ IsUnreached (ℤ.pos e)
unspecified_iff e = (
  λ z s le y. has_case-specific e (reached-has_case s e le y) z,
  λ free. elim (Option-cases (select errno_cases e)) [
    | inl q ↦ errno_none e q
    | inr (s, q) ↦ absurd (
        free s (select-All (λ c r. tbs_stbase ≤ r) errno_cases e s errno_cases-above q)
          (select-All (λ c r. status2errno (ℤ.pos r) ≡ ℤ.pos c) errno_cases e s errno_cases-back q))
  ],
)

negative-IsUnreached : (n : ℕ) → IsUnreached (ℤ.negsuc n)
unfolding status2errno
negative-IsUnreached n s le = elim (Option-cases (select status_cases s)) [
  | inl q ↦ λ z.
      let e : status2errno (ℤ.pos s) ≡ ℤ.pos (status_default s) = rw (q, status2errno) refl in
      pos-ne-negsuc (status_default s) n (sym e ∙ z)
  | inr (r, q) ↦ λ z.
      let e : status2errno (ℤ.pos s) ≡ ℤ.pos r = rw (q, status2errno) refl in
      pos-ne-negsuc r n (sym e ∙ z)
]

-- Every errno value comes back from its status code, or has the unspecified status code, which becomes EIO.
-- It has the unspecified code just if no status code, from the first of them on, becomes this
-- errno value.
pub status2errno-errno2status :
    (n : ℤ)
    → ((status2errno (errno2status n) ≡ n)
        ⊎ ((errno2status n ≡ ℤ.pos tbs_st_err) × (status2errno (errno2status n) ≡ ℤ.pos eio)))
      × ((errno2status n ≡ ℤ.pos tbs_st_err) ↔ IsUnreached n)
status2errno-errno2status (ℤ.pos e) = (back_or_err e (select errno_cases e) refl, unspecified_iff e)
status2errno-errno2status (ℤ.negsuc n) = (
  inr (err_negative n, ap status2errno (err_negative n) ∙ err_default),
  (λ z. negative-IsUnreached n, λ z. err_negative n),
)

-- What a status code becomes: an errno value below the codes, 0 just for the good status.
abbrev IsErrno : ℤ → ℤ → Type 0
IsErrno s r = (e : ℕ) × (r ≡ ℤ.pos e) × (e < tbs_stbase) × ((e ≡ 0) ↔ (s ≡ ℤ.pos 0))

pos-zero : (s : ℕ) → ℤ.pos s ≡ ℤ.pos 0 → s ≡ 0
pos-zero s e = cc

status_default-small :
    (s : ℕ) → (status_default s < tbs_stbase) × ((status_default s ≡ 0) ↔ (s ≡ 0))
unfolding status_default
status_default-small s = (ground arith, (λ e. ground arith, λ e. ground arith))

pos_IsErrno :
    (s : ℕ) (o : Option ℕ) → select status_cases s ≡ o → IsErrno (ℤ.pos s) (status2errno (ℤ.pos s))
unfolding status2errno
pos_IsErrno s none q =
    let (lt, (z, y)) = status_default-small s in
    (status_default s, rw (q, status2errno) refl, lt, (λ e. ap ℤ.pos (z e), λ e. y (pos-zero s e)))
pos_IsErrno s (some e) q =
    let (lt, nz, ns) =
      select-All (λ c r. (r < tbs_stbase) × (r ≢ 0) × (c ≢ 0)) status_cases s e status_cases-small
        q in
    (e, rw (q, status2errno) refl, lt, (λ z. absurd (nz z), λ z. absurd (ns (pos-zero s z))))

-- A status code becomes an errno value below the status codes, and 0 just for the good status, whatever the
-- code; other negative numbers than -1 stay as they are.
status2errno-IsErrno :
    (s : ℤ)
    → ((e : ℕ) × (status2errno s ≡ ℤ.pos e) × (e < tbs_stbase) × ((e ≡ 0) ↔ (s ≡ ℤ.pos 0)))
      ⊎ ((n : ℕ) × (s ≡ ℤ.negsuc (suc n)) × (status2errno s ≡ s))
unfolding status2errno
status2errno-IsErrno (ℤ.pos s) = inl (pos_IsErrno s (select status_cases s) refl)
status2errno-IsErrno (ℤ.negsuc zero) =
    inl (eio, refl, omega arith, (λ e. absurd (omega (arith, e)), λ e. absurd (cc)))
status2errno-IsErrno (ℤ.negsuc (suc n)) = inr (n, refl, refl)
