-- ===== src/Peers/Groups.antt =====
-- The cases of `peers_connect_to_acceptors` of evpaxos/peers.c: which groups are linked.
use sciascid_libpaxos_d255f.Base.{
  ℕ, ◌≡◌, ◌≢◌, ◌↔◌, refl, ap, ◌∙◌, ◌⊎◌, Bool, true, false, not, ◌&&◌, if◌then◌else◌, ℤ, pos, negsuc,
  ==_iff, arith,
}
use sciascid_libpaxos_d255f.Peers.{◌==ℤ◌, Address, connects}

==ℤ_sym : (m n : ℤ) → (m ==ℤ n) ≡ (n ==ℤ m)
==ℤ_sym (pos m) (pos n) = ground arith
==ℤ_sym (pos m) (negsuc n) = refl
==ℤ_sym (negsuc m) (pos n) = refl
==ℤ_sym (negsuc m) (negsuc n) = ground arith

-- The tests of `peers_connect_to_acceptors` as a function of their answers: the same group, whether
-- the own group and that of `a` are at the root, and the other three comparisons.
abbrev tests : Bool → Bool → Bool → Bool → Bool → Bool → Bool
tests g own_root a_root above beside below =
    if g
    then true
    else (if not own_root && above
        then true
        else (if not own_root && (not a_root && beside)
            then true
            else (if not a_root && below then true else false)))

tests_sym : (g r s x y z : Bool) → tests g r s x y z ≡ tests g s r z y x
tests_sym true r s x y z = refl
tests_sym false true true x y z = refl
tests_sym false true false x y z = refl
tests_sym false false true x y z = refl
tests_sym false false false true y true = refl
tests_sym false false false true true false = refl
tests_sym false false false true false false = refl
tests_sym false false false false true true = refl
tests_sym false false false false true false = refl
tests_sym false false false false false true = refl
tests_sym false false false false false false = refl

pub connects_sym : (a b : Address) → connects a b ≡ connects b a
unfolding connects
connects_sym a b =
    tests_sym (b.groupid ==ℤ a.groupid) (a.groupid ==ℤ a.parentid) (b.groupid ==ℤ b.parentid)
      (b.groupid ==ℤ a.parentid) (b.parentid ==ℤ a.parentid) (b.parentid ==ℤ a.groupid)
    ∙ rw
        (
          ==ℤ_sym b.groupid a.groupid,
          ==ℤ_sym b.groupid a.parentid,
          ==ℤ_sym b.parentid a.parentid,
          ==ℤ_sym b.parentid a.groupid,
        )
        refl

-- Two nodes are linked if they are in the same group, in a group and the one above it, or in two
-- groups below the same one; a group at the root is its own parent.
abbrev pub Linked : Address → Address → Type 0
Linked a b =
    (b.groupid ≡ a.groupid)
    ⊎ ((a.groupid ≢ a.parentid) × (b.groupid ≡ a.parentid))
    ⊎ ((a.groupid ≢ a.parentid) × (b.groupid ≢ b.parentid) × (b.parentid ≡ a.parentid))
    ⊎ ((b.groupid ≢ b.parentid) × (b.parentid ≡ a.groupid))

pos_inj : {m n : ℕ} → pos m ≡ pos n → m ≡ n
pos_inj e = cc

negsuc_inj : {m n : ℕ} → negsuc m ≡ negsuc n → m ≡ n
negsuc_inj e = cc

==ℤ_iff : (m n : ℤ) → ((m ==ℤ n) ≡ true) ↔ (m ≡ n)
==ℤ_iff (pos m) (pos n) = (λ h. ap pos ((==_iff m n).0 h), λ e. ground (arith, pos_inj e))
==ℤ_iff (pos m) (negsuc n) = (λ h. absurd (cc), λ e. absurd (cc))
==ℤ_iff (negsuc m) (pos n) = (λ h. absurd (cc), λ e. absurd (cc))
==ℤ_iff (negsuc m) (negsuc n) =
    (λ h. ap negsuc ((==_iff m n).0 h), λ e. ground (arith, negsuc_inj e))

pub connects_iff : (a b : Address) → (connects a b ≡ true) ↔ Linked a b
unfolding connects
connects_iff a b = ground (
  arith,
  ==ℤ_iff b.groupid a.groupid,
  ==ℤ_iff a.groupid a.parentid,
  ==ℤ_iff b.groupid b.parentid,
  ==ℤ_iff b.groupid a.parentid,
  ==ℤ_iff b.parentid a.parentid,
  ==ℤ_iff b.parentid a.groupid,
)
