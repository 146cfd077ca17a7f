-- ===== src/Network/Datacenters.antt =====
-- The table of data centers over any calls.
use cpp_gram.Common.{
  ℕ, ◌≡◌, ◌≢◌, refl, sym, subst, ap, ◌∙◌, Bool, true, false, List, [], ◌∷◌, All, none, some, inl,
  inr, Bool-cases, if◌then◌else◌,
}
use cpp_gram.Common.Maps.{
  number_key, is_some, find, assign, contains, find-assign, find-assign_other, contains-assign,
}
use cpp_gram.Network.{
  DataCenter, DatacenterManager, default_manager, table, get_dc, set_primary_dc, get_primary_dc,
  register_custom_dc,
}

pub data Change : Type 0 where
  set_primary : ℕ → Change
  register : DataCenter → Change

abbrev pub change : Change → DatacenterManager → DatacenterManager
change (set_primary id) m = set_primary_dc id m
change (register dc) m = register_custom_dc dc m

abbrev pub changes : List Change → DatacenterManager → DatacenterManager
changes [] m = m
changes (c ∷ cs) m = changes cs (change c m)

-- Each entry of a table stands under its own id, and in the table of its kind.
abbrev IsFiled : Bool → List (ℕ × DataCenter) → Type 0
IsFiled test dcs =
    (id : ℕ) (dc : DataCenter) → find id dcs ≡ some dc → (dc.id ≡ id) × (dc.is_test ≡ test)

abbrev pub IsValid : DatacenterManager → Type 0
IsValid m =
    IsFiled false m.prod_dcs
    × IsFiled true m.test_dcs
    × (contains m.primary_dc_id m.prod_dcs ≡ true)

some_injective : {a b : DataCenter} → some a ≡ some b → a ≡ b
some_injective e = cc

IsFiled-assign :
    (test : Bool) (dcs : List (ℕ × DataCenter)) (dc : DataCenter)
    → dc.is_test ≡ test
    → IsFiled test dcs
    → IsFiled test (assign dc.id dc dcs)
IsFiled-assign test dcs dc kind h id found e = elim (Bool-cases (number_key.same id dc.id)) [
  | inl f ↦
      let same : dc ≡ found = some_injective (
        sym (
          subst (λ (k : ℕ). find k (assign dc.id dc dcs) ≡ some dc)
            (sym (number_key.same_sound id dc.id f)) (find-assign dc.id dc dcs))
        ∙ e) in
      (
        ap (λ (d : DataCenter). d.id) (sym same) ∙ sym (number_key.same_sound id dc.id f),
        ap (λ (d : DataCenter). d.is_test) (sym same) ∙ kind,
      )
  | inr f ↦ h id found (sym (find-assign_other dc.id id dc dcs f) ∙ e)
]

registered :
    (dc : DataCenter) (m : DatacenterManager) (test : Bool)
    → dc.is_test ≡ test
    → register_custom_dc dc m ≡ (
        if test
        then record m { test_dcs = assign dc.id dc m.test_dcs }
        else record m { prod_dcs = assign dc.id dc m.prod_dcs })
unfolding register_custom_dc
registered dc m test e =
    ap
      (λ (b : Bool).
        if b
        then record m { test_dcs = assign dc.id dc m.test_dcs }
        else record m { prod_dcs = assign dc.id dc m.prod_dcs })
      e

primary_kept :
    (dc : DataCenter) (m : DatacenterManager)
    → contains m.primary_dc_id m.prod_dcs ≡ true
    → contains m.primary_dc_id (assign dc.id dc m.prod_dcs) ≡ true
primary_kept dc m h =
    contains-assign dc.id m.primary_dc_id dc m.prod_dcs
    ∙ either_way (number_key.same m.primary_dc_id dc.id)
  where
    either_way : (b : Bool) → (if b then true else contains m.primary_dc_id m.prod_dcs) ≡ true
    either_way true = refl
    either_way false = h

entries-IsFiled :
    (test : Bool) (dcs : List (ℕ × DataCenter))
    → All (λ e. (e.1.id ≡ e.0) × (e.1.is_test ≡ test)) dcs
    → IsFiled test dcs
entries-IsFiled test [] h id dc e = absurd (cc e)
entries-IsFiled test ((k, d) ∷ dcs) h id dc e = elim (Bool-cases (number_key.same id k)) [
  | inl f ↦
      let same : d ≡ dc = some_injective (rw f at e) in
      (
        ap (λ (x : DataCenter). x.id) (sym same) ∙ h.0.0 ∙ sym (number_key.same_sound id k f),
        ap (λ (x : DataCenter). x.is_test) (sym same) ∙ h.0.1,
      )
  | inr f ↦ entries-IsFiled test dcs h.1 id dc (rw f at e)
]

default-IsValid : IsValid default_manager
unfolding default_manager
default-IsValid = (
  entries-IsFiled false default_manager.prod_dcs
      ((refl, refl), ((refl, refl), ((refl, refl), ((refl, refl), ((refl, refl), tt))))),
  entries-IsFiled true default_manager.test_dcs ((refl, refl), ((refl, refl), ((refl, refl), tt))),
  refl,
)

change-IsValid : (c : Change) (m : DatacenterManager) → IsValid m → IsValid (change c m)
unfolding set_primary_dc register_custom_dc
change-IsValid (set_primary id) m h = elim (Bool-cases (contains id m.prod_dcs)) [
  | inl e ↦ rw e (h.0, h.1, e)
  | inr e ↦ rw e h
]
change-IsValid (register dc) m h = elim (Bool-cases dc.is_test) [
  | inl e ↦
      subst IsValid (sym (registered dc m true e))
        (h.0, IsFiled-assign true m.test_dcs dc e h.1, h.2)
  | inr e ↦
      subst IsValid (sym (registered dc m false e))
        (IsFiled-assign false m.prod_dcs dc e h.0, h.1, primary_kept dc m h.2)
]

changes-IsValid : (cs : List Change) (m : DatacenterManager) → IsValid m → IsValid (changes cs m)
changes-IsValid [] m h = h
changes-IsValid (c ∷ cs) m h = changes-IsValid cs (change c m) (change-IsValid c m h)

-- Whatever is made primary or registered: the primary data center of the production table is there,
-- and an answer of get_dc is a data center of the id and of the kind that was asked for.
pub get_dc-changes :
    (cs : List Change)
    → let m = changes cs default_manager in
      (get_primary_dc false m ≢ none)
      × ((id : ℕ) (test : Bool) (dc : DataCenter)
          → get_dc id test m ≡ some dc
          → (dc.id ≡ id) × (dc.is_test ≡ test))
unfolding get_primary_dc get_dc
get_dc-changes cs = (λ e. absurd (cc (ap is_some e, v.2)), λ id test dc e. filed test id dc e)
  where
    v : IsValid (changes cs default_manager)
    v = changes-IsValid cs default_manager default-IsValid

    filed :
        (test : Bool) (id : ℕ) (dc : DataCenter)
        → find id (table test (changes cs default_manager)) ≡ some dc
        → (dc.id ≡ id) × (dc.is_test ≡ test)
    filed true id dc e = v.1 id dc e
    filed false id dc e = v.0 id dc e
