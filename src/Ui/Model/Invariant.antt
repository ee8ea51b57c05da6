-- ===== src/Ui/Model/Invariant.antt =====
-- What always holds of the model of src/ui/model.rs, whatever events it folds.
use dbotter.Prelude.{
  ℕ, ◌<◌, ◌≡◌, refl, sym, ap, ◌∙◌, inl, inr, Bool, true, false, ◌&&◌, Option, none, some, List, [],
  ◌∷◌, any, arith, Bool-cases, Option-cases, subst,
}
use dbotter.Text.{Text, text_eq}
use dbotter.Text.Equality.{text_eq→≡}
use dbotter.Model.Operations.{PublicSummary}
use dbotter.Ui.Model.{Map, put, UiModel, ProfileSnapshot, new_model, find_profile, is_newer}
use dbotter.Ui.Model.Profiles.{
  save_is_current, fold_saved, with_retag, retag, warned, fold_deleted, delete_profile, deletes,
  collect_generations, keep_profiles, lacks_secret, refreshed_states, list_profiles,
}

-- No profile is active at a generation at or below its tombstone, and none that is not active has a
-- connection state.
pub record IsConsistent (m : UiModel) : Type 0 where
  pub alive :
      (k : Text) (g t : ℕ) → m.active_generations k ≡ some g → m.tombstones k ≡ some t → t < g
  pub shown : (k : Text) → m.active_generations k ≡ none → m.connection_states k ≡ none

pub new_model-IsConsistent : IsConsistent new_model
unfolding new_model
new_model-IsConsistent = record { alive = λ k g t active dead. cc; shown = λ k active. refl }

newer-lt : (o : Option ℕ) (g t : ℕ) → is_newer o g ≡ true → o ≡ some t → t < g
newer-lt o g t h e = ground arith

-- The branch of `fold_saved` that takes the save, whatever retag it leaves.
retagged-IsConsistent :
    (m : UiModel) (p : Text) (tags : Option (ℕ × ℕ)) (g : ℕ) (status : Text)
    → IsConsistent m
    → is_newer (m.tombstones p) g ≡ true
    → IsConsistent (record (with_retag m p tags) {
      active_generations = put m.active_generations p g;
      status = status;
    })
retagged-IsConsistent m p (some tags) g status h newer = record {
  alive = λ k a t active dead. elim (Bool-cases (text_eq p k)) [
    | inl same ↦ let e = text_eq→≡ p k same in ground (arith, newer-lt (m.tombstones p) g t newer)
    | inr differ ↦ h.alive k a t (ground arith) dead
  ];
  shown = λ k active. h.shown k (ground arith);
}
retagged-IsConsistent m p none g status h newer = record {
  alive = λ k a t active dead. elim (Bool-cases (text_eq p k)) [
    | inl same ↦ let e = text_eq→≡ p k same in ground (arith, newer-lt (m.tombstones p) g t newer)
    | inr differ ↦ h.alive k a t (ground arith) dead
  ];
  shown = λ k active. ground (arith, h.shown k);
}

pub saved-IsConsistent :
    (m : UiModel) (p : Text) (previous : Option ℕ) (g : ℕ) (retained : Bool)
    (w : Option PublicSummary)
    → IsConsistent m
    → IsConsistent (fold_saved m p previous g retained w)
unfolding fold_saved save_is_current
saved-IsConsistent m p previous g retained w h =
    elim (Bool-cases (save_is_current m p previous g)) [
      | inl current ↦ rw current (
          retagged-IsConsistent m p (retag previous retained g) g (warned m.status w) h
            (ground arith))
      | inr stale ↦ rw stale h
    ]

pub deleted-IsConsistent :
    (m : UiModel) (p : Text) (g : ℕ) (unknown : Bool)
    → IsConsistent m
    → IsConsistent (fold_deleted m p g unknown)
unfolding fold_deleted delete_profile
deleted-IsConsistent m p g unknown h = elim (Bool-cases (deletes (m.active_generations p) g)) [
  | inl current ↦ rw current (record {
    alive = λ k a t active dead. h.alive k a t (ground arith) (ground arith);
    shown = λ k active. ground (arith, h.shown k);
  })
  | inr stale ↦ rw stale h
]

keep-keep :
    (test : ProfileSnapshot → Bool) (ps : List ProfileSnapshot)
    → keep_profiles test (keep_profiles test ps) ≡ keep_profiles test ps
keep-keep test [] = refl
keep-keep test (p ∷ ps) = elim (Bool-cases (test p)) [
  | inl kept ↦ rw kept (rw kept (ap (λ l. p ∷ l) (keep-keep test ps)))
  | inr dropped ↦ rw dropped (keep-keep test ps)
]

-- A generation that is collected is one of a profile that is kept.
collect-keep :
    (test : ProfileSnapshot → Bool) (ps : List ProfileSnapshot) (id : Text) (g : ℕ)
    → collect_generations (keep_profiles test ps) id ≡ some g
    → (p : ProfileSnapshot) × (test p ≡ true) × (p.id ≡ id) × (p.generation ≡ g)
unfolding collect_generations
collect-keep test [] id g h = cc
collect-keep test (p ∷ ps) id g h = elim (Bool-cases (test p)) [
  | inr dropped ↦ collect-keep test ps id g (ground arith)
  | inl kept ↦ elim (Option-cases (collect_generations (keep_profiles test ps) id)) [
    | inl empty ↦ (p, kept, text_eq→≡ p.id id (ground arith), ground arith)
    | inr (a, found) ↦ collect-keep test ps id g (ground arith)
  ]
]

collect-none :
    (ps : List ProfileSnapshot) (id : Text)
    → collect_generations ps id ≡ none
    → (find_profile ps id ≡ none) × (any (λ p. text_eq p.id id && lacks_secret p) ps ≡ false)
unfolding collect_generations
collect-none [] id h = (refl, refl)
collect-none (p ∷ ps) id h = ground (arith, collect-none ps id)

pub listed-IsConsistent :
    (m : UiModel) (ps : List ProfileSnapshot) (tombstones : Map ℕ)
    → IsConsistent (list_profiles m tombstones ps)
unfolding list_profiles refreshed_states
listed-IsConsistent m ps tombstones =
    let test : ProfileSnapshot → Bool = λ p. is_newer (tombstones p.id) p.generation in
    record {
      alive = λ k g t active dead.
          let (p, newer, id, generation) = collect-keep test (keep_profiles test ps) k g active in
          newer-lt (tombstones k) g t
            (subst (λ i. is_newer (tombstones i) g ≡ true) id
              (subst (λ n. is_newer (tombstones p.id) n ≡ true) generation newer))
            dead;
      shown = λ k active.
          let (unlisted, supplied) =
            collect-none (keep_profiles test ps) k
              (sym (ap (λ l. collect_generations l k) (keep-keep test ps)) ∙ active) in
          rw supplied (rw unlisted (ground arith));
    }
