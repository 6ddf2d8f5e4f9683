-- ===== src/Grouping/Frames.antt =====
-- The frames that Fingerprint of internal/grouping/grouping.go looks at.
use leser.Prelude.{
  ◌≡◌, refl, ◌∙◌, Bool, false, none, some, List, [], ◌∷◌, length, last?, update_last, ◌==◌, arith,
}
use leser.Prelude.Bytes.{Bytes}
use leser.Prelude.Sorting.{keep}
use leser.Grouping.{
  Frame, Exception, Input, Regex, is_in_app, select_frames, last_exception_type, without_frames,
  default_fingerprint, splice, apply_rules, fingerprint,
}

keep_idem {ℓ} : {A : Type ℓ} (p : A → Bool) (xs : List A) → keep p (keep p xs) ≡ keep p xs
unfolding keep
keep_idem p [] = refl
keep_idem p (x ∷ xs) = ground (arith, keep_idem p xs)

last?-update_last {ℓ} :
    {A : Type ℓ} (f : A → A) (xs : List A)
    → last? (update_last f xs) ≡ (elim (last? xs) [ none ↦ none | some x ↦ some (f x) ])
last?-update_last f [] = refl
last?-update_last f (x ∷ []) = refl
last?-update_last f (x ∷ y ∷ []) = refl
last?-update_last f (x ∷ y ∷ z ∷ xs) = last?-update_last f (y ∷ z ∷ xs)

module _ (sha1_hex : Bytes → Bytes) (replace_all : Regex → Bytes → Bytes)
    (path_match : Bytes → Bytes → Bool) (trim_space to_lower : Bytes → Bytes) where
  abbrev app_frame : Frame → Bool
  app_frame f = is_in_app sha1_hex replace_all path_match trim_space to_lower f

  -- The exception without the frames that are not of the application
  abbrev pub app_only : Exception → Exception
  app_only exc = record exc { frames = keep app_frame exc.frames }

  abbrev pub without_libraries : Input → Input
  without_libraries input = record input { exceptions = update_last app_only input.exceptions }

  last-without_libraries :
      (input : Input) (exc : Exception)
      → last? input.exceptions ≡ some exc
      → last? (without_libraries input).exceptions ≡ some (app_only exc)
  last-without_libraries input exc h = last?-update_last app_only input.exceptions ∙ rw h refl

  select_frames-without_libraries :
      (input : Input) (exc : Exception)
      → last? input.exceptions ≡ some exc
      → (length (keep app_frame exc.frames) == 0) ≡ false
      → select_frames sha1_hex replace_all path_match trim_space to_lower (without_libraries input)
        ≡ select_frames sha1_hex replace_all path_match trim_space to_lower input
  unfolding select_frames
  select_frames-without_libraries input exc h some_app =
      rw (last-without_libraries input exc h, select_frames)
        (rw (h, select_frames) (rw (keep_idem app_frame exc.frames) (rw some_app refl)))

  without_frames-without_libraries :
      (input : Input) (exc : Exception)
      → last? input.exceptions ≡ some exc
      → without_frames sha1_hex replace_all path_match trim_space to_lower (without_libraries input)
        ≡ without_frames sha1_hex replace_all path_match trim_space to_lower input
  unfolding without_frames
  without_frames-without_libraries input exc h =
      rw (last-without_libraries input exc h, without_frames) (rw (h, without_frames) refl)

  default_fingerprint-without_libraries :
      (input : Input) (exc : Exception)
      → last? input.exceptions ≡ some exc
      → (length (keep app_frame exc.frames) == 0) ≡ false
      → default_fingerprint sha1_hex replace_all path_match trim_space to_lower
          (without_libraries input)
        ≡ default_fingerprint sha1_hex replace_all path_match trim_space to_lower input
  unfolding default_fingerprint
  default_fingerprint-without_libraries input exc h some_app =
      rw (select_frames-without_libraries input exc h some_app) (
        rw (without_frames-without_libraries input exc h) (
          rw (last-without_libraries input exc h, last_exception_type)
            (rw (h, last_exception_type) refl)))

  splice-without_libraries :
      (input : Input) (exc : Exception) (parts : List Bytes)
      → last? input.exceptions ≡ some exc
      → (length (keep app_frame exc.frames) == 0) ≡ false
      → splice sha1_hex replace_all path_match trim_space to_lower (without_libraries input) parts
        ≡ splice sha1_hex replace_all path_match trim_space to_lower input parts
  unfolding splice
  splice-without_libraries input exc [] h some_app = refl
  splice-without_libraries input exc (p ∷ parts) h some_app =
      rw (default_fingerprint-without_libraries input exc h some_app)
        (rw (splice-without_libraries input exc parts h some_app) refl)

  -- When the last exception of an event has a frame of the application, the event has the same fingerprint
  -- and basis without the other frames of that exception: frames of libraries do not matter to its group,
  -- whatever the SDK's own fingerprint is, in a project without rules.
  pub fingerprint-without_libraries :
      (input : Input) (exc : Exception)
      → last? input.exceptions ≡ some exc
      → (length (keep app_frame exc.frames) == 0) ≡ false
      → fingerprint sha1_hex replace_all path_match trim_space to_lower (without_libraries input) []
        ≡ fingerprint sha1_hex replace_all path_match trim_space to_lower input []
  unfolding fingerprint apply_rules
  fingerprint-without_libraries input exc h some_app =
      rw (default_fingerprint-without_libraries input exc h some_app)
        (rw (splice-without_libraries input exc input.sdk_fingerprint h some_app) refl)
