-- ===== src/Acl/Hash/Start.antt =====
-- The table at the start.
use mvfs.Prelude.{Bool, true, false, none, some, ◌≡◌, arith, refl, Bool-cases, inl, inr, ◌⊎◌, ◌&&◌}
use mvfs.Acl.Types.{Env, World, Table, enomem}
use mvfs.Acl.Hash.{empty_table, acl_init}
use mvfs.Acl.Hash.Invariant.{IsValid}

pub empty_table-IsValid : (env : Env) (w : World) → IsValid env (empty_table env w) (λ a. 0)
unfolding empty_table
empty_table-IsValid env w = record {
  linked = λ a e q. absurd (cc);
  listed = λ i a o. absurd (o refl);
  held = λ a e q. absurd (cc);
  unheld = λ a q. refl;
  unique = λ a b e f q r s. absurd (cc);
  counted = λ i. omega arith;
}

-- Without the memory for the slots or the locks the start reports ENOMEM and leaves no table, and otherwise it
-- gives a table that is valid with no holders.
acl_init-IsValid :
    (env : Env) (w : World) (slots locks : Bool)
    → (((slots && locks) ≡ false) × (acl_init env w slots locks ≡ (enomem, none)))
      ⊎ ((t : Table) × ((slots && locks) ≡ true)
          × (acl_init env w slots locks ≡ (0, some t))
          × IsValid env t (λ a. 0))
unfolding acl_init
acl_init-IsValid env w slots locks = elim (Bool-cases (slots && locks)) [
  | inl y ↦ inr (empty_table env w, y, rw y refl, empty_table-IsValid env w)
  | inr n ↦ inl (n, rw n refl)
]
