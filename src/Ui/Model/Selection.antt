-- ===== src/Ui/Model/Selection.antt =====
-- Which profile is selected after the events of src/ui/model.rs that list and delete profiles.
use dbotter.Prelude.{
  ℕ, ◌≡◌, refl, inl, inr, Bool, true, false, not, Option, none, some, List, [], ◌∷◌, arith,
  if◌then◌else◌, Bool-cases, subst,
}
use dbotter.Text.{Text, text_eq}
use dbotter.Text.Equality.{text_eq_sym, text_eq_self, text_eq→≡}
use dbotter.Ui.Model.{UiModel, ProfileSnapshot}
use dbotter.Ui.Model.Profiles.{
  keep_profiles, is_listed, first_id, reselected, selects, deletes, fold_profiles, list_profiles,
  fold_deleted, delete_profile,
}

-- The selected profile is one of the list.
abbrev pub SelectsListed : UiModel → Type 0
SelectsListed m = (id : Text) → m.selected_profile ≡ some id → is_listed m.profiles id ≡ true

first-is_listed :
    (ps : List ProfileSnapshot) (id : Text) → first_id ps ≡ some id → is_listed ps id ≡ true
first-is_listed [] id h = cc
first-is_listed (p ∷ ps) id h = ground (arith, text_eq_self id)

reselected-is_listed :
    (selected : Option Text) (ps : List ProfileSnapshot) (id : Text)
    → reselected selected ps ≡ some id
    → is_listed ps id ≡ true
reselected-is_listed none ps id h = first-is_listed ps id h
reselected-is_listed (some s) ps id h = elim (Bool-cases (is_listed ps s)) [
  | inl listed ↦ let e : s ≡ id = ground arith in subst (λ i. is_listed ps i ≡ true) e listed
  | inr gone ↦ first-is_listed ps id (ground arith)
]

unselected-empty :
    (selected : Option Text) (ps : List ProfileSnapshot) → reselected selected ps ≡ none → ps ≡ []
unselected-empty selected [] h = refl
unselected-empty selected (p ∷ ps) h = ground arith

keep-is_listed :
    (ps : List ProfileSnapshot) (p id : Text)
    → text_eq p id ≡ false
    → is_listed ps id ≡ true
    → is_listed (keep_profiles (λ q. not (text_eq q.id p)) ps) id ≡ true
keep-is_listed [] p id ne h = h
keep-is_listed (q ∷ ps) p id ne h = elim (Bool-cases (text_eq q.id p)) [
  | inl same ↦
      let e : q.id ≡ p = text_eq→≡ q.id p same in rw same (keep-is_listed ps p id ne (ground arith))
  | inr other ↦ rw other (ground (arith, keep-is_listed ps p id ne))
]

-- When a list of profiles has been taken, the selected profile is one of it, and nothing is selected
-- only where the list is empty.
pub profiles-SelectsListed :
    (m : UiModel) (ps : List ProfileSnapshot)
    → SelectsListed (fold_profiles m ps)
      × ((fold_profiles m ps).selected_profile ≡ none → (fold_profiles m ps).profiles ≡ [])
unfolding fold_profiles list_profiles
profiles-SelectsListed m ps = (
  (λ id h. reselected-is_listed m.selected_profile _ id h),
  λ h. unselected-empty m.selected_profile _ h,
)

deleted-is_listed :
    (m : UiModel) (p id : Text)
    → SelectsListed m
    → let left = keep_profiles (λ q. not (text_eq q.id p)) m.profiles in
      (if selects m.selected_profile p then first_id left else m.selected_profile) ≡ some id
      → is_listed (keep_profiles (λ q. not (text_eq q.id p)) m.profiles) id ≡ true
deleted-is_listed m p id h e = elim (Bool-cases (selects m.selected_profile p)) [
  | inl selected ↦ first-is_listed _ id (ground arith)
  | inr other ↦
      let kept : m.selected_profile ≡ some id = ground arith in
      keep-is_listed m.profiles p id (ground (arith, text_eq_sym id p)) (h id kept)
]

-- A deletion keeps the selected profile one of the list.
deleted-SelectsListed :
    (m : UiModel) (p : Text) (g : ℕ) (unknown : Bool)
    → SelectsListed m
    → SelectsListed (fold_deleted m p g unknown)
unfolding fold_deleted delete_profile
deleted-SelectsListed m p g unknown h = elim (Bool-cases (deletes (m.active_generations p) g)) [
  | inr kept ↦ rw kept h
  | inl current ↦ rw current (λ id selected. deleted-is_listed m p id h selected)
]
