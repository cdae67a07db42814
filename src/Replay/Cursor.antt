-- ===== src/Replay/Cursor.antt =====
-- `streamCursor.advance`, position by position.
use spruce.Prelude.{
  ℕ, ◌≤◌, ◌<◌, max, ◌≡◌, refl, sym, subst, ◌∙◌, ◌≢◌, ◌⊎◌, inl, inr, true, ◌&&◌, Option, none, some,
  List, [], ◌∷◌, arith, ltb, leb, Bool-cases, Option-cases, some_inj, All, Str, str_dec,
}
use spruce.Prelude.Maps.{
  find, put, del, find-put_ne, find-put_self, find-del_ne, found-put, found-del,
}
use spruce.Replay.{StreamCursor, value_at, drop_expired, advance}

-- No history of the origin is over.
abbrev pub Retained : ℕ → Str → List (Str × ℕ) → Type 0
Retained now o = All (λ e. e.0 ≡ o → (e.1 ≡ 0) ⊎ (now < e.1))

-- The cursor after a delivery: the position of its origin is not before it, no origin goes back,
-- those with retained history stay, and no other position changes.
pub record Advanced (c : StreamCursor) (origin : Str) (sequence now : ℕ) (d : StreamCursor)
    : Type 0 where
  pub reached : (s : ℕ) × (find str_dec origin d.sequences ≡ some s) × (sequence ≤ s)
  pub forward :
      (o : Str) (s t : ℕ)
      → find str_dec o c.sequences ≡ some s
      → find str_dec o d.sequences ≡ some t
      → s ≤ t
  pub stays :
      (o : Str) (s : ℕ)
      → find str_dec o c.sequences ≡ some s
      → Retained now o c.expires
      → (t : ℕ) × (find str_dec o d.sequences ≡ some t)
  pub others :
      (o : Str) (t : ℕ)
      → o ≢ origin
      → find str_dec o d.sequences ≡ some t
      → find str_dec o c.sequences ≡ some t

drop_expired-keeps :
    (now : ℕ) (o : Str) (es : List (Str × ℕ)) (c : StreamCursor)
    → Retained now o es
    → find str_dec o (drop_expired now es c).sequences ≡ find str_dec o c.sequences
unfolding drop_expired
drop_expired-keeps now o [] c h = refl
drop_expired-keeps now o (e ∷ es) c h = elim (Bool-cases (ltb 0 e.1 && leb e.1 now)) [
  | inr alive ↦ rw (alive, drop_expired) (drop_expired-keeps now o es c h.1)
  | inl over ↦
      rw (over, drop_expired)
        (drop_expired-keeps now o es
            (record {
              sequences = del str_dec e.0 c.sequences;
              expires = del str_dec e.0 c.expires;
            })
            h.1
          ∙ find-del_ne str_dec e.0 o c.sequences (λ same. gone over (h.0 (sym same))))
]
  where
    gone : (ltb 0 e.1 && leb e.1 now) ≡ true → ((e.1 ≡ 0) ⊎ (now < e.1)) → ⊥
    gone over (inl z) = ground arith
    gone over (inr l) = ground arith

drop_expired-found :
    (now : ℕ) (o : Str) (t : ℕ) (es : List (Str × ℕ)) (c : StreamCursor)
    → find str_dec o (drop_expired now es c).sequences ≡ some t
    → find str_dec o c.sequences ≡ some t
unfolding drop_expired
drop_expired-found now o t [] c h = h
drop_expired-found now o t (e ∷ es) c h = elim (Bool-cases (ltb 0 e.1 && leb e.1 now)) [
  | inr alive ↦ drop_expired-found now o t es c (rw (alive, drop_expired) at h)
  | inl over ↦
      (found-del str_dec e.0 o t c.sequences (
        drop_expired-found now o t es
          (record { sequences = del str_dec e.0 c.sequences; expires = del str_dec e.0 c.expires })
          (rw (over, drop_expired) at h))).1
]

-- A delivery moves the cursor of its stream forward. Positions of other origins stay as they are,
-- and only those whose retention is over are forgotten.
pub advance-Advanced :
    (c : StreamCursor) (origin : Str) (sequence expires_at now : ℕ)
    → Advanced c origin sequence now (advance c origin sequence expires_at now)
unfolding advance
advance-Advanced c origin sequence expires_at now =
    elim (Option-cases (find str_dec origin c.sequences)) [
      | inl new ↦
          let d = drop_expired now c.expires c in
          rw (new, advance)
            (record {
              reached = (
                _,
                find-put_self str_dec origin (max (value_at origin d.sequences) sequence)
                    d.sequences,
                omega arith,
              );
              forward = λ o s t before after.
                  elim (found-put str_dec origin o (max (value_at origin d.sequences) sequence) t
                    d.sequences after) [
                      | inl (same, eq) ↦
                          absurd (
                            clash new
                              (subst (λ x. find str_dec x c.sequences ≡ some s) same before))
                      | inr (ne, old) ↦ omega (
                        arith,
                        some_inj (sym before ∙ drop_expired-found now o t c.expires c old),
                      )
                    ];
              stays = λ o s before kept. elim (str_dec o origin) [
                | yes same ↦
                    absurd
                      (clash new (subst (λ x. find str_dec x c.sequences ≡ some s) same before))
                | no ne ↦ (
                  s,
                  find-put_ne str_dec origin o _ d.sequences ne
                      ∙ drop_expired-keeps now o c.expires c kept
                      ∙ before,
                )
              ];
              others = λ o t ne after.
                  drop_expired-found now o t c.expires c
                    (sym (find-put_ne str_dec origin o _ d.sequences ne) ∙ after);
            })
      | inr (p, known) ↦
          rw (known, advance)
            (record {
              reached = (_, find-put_self str_dec origin (max p sequence) c.sequences, omega arith);
              forward = λ o s t before after.
                  elim (found-put str_dec origin o (max p sequence) t c.sequences after) [
                    | inl (same, eq) ↦ omega (
                      arith,
                      eq,
                      some_inj (
                          sym known ∙ subst (λ x. find str_dec x c.sequences ≡ some s) same before),
                    )
                    | inr (ne, old) ↦ omega (arith, some_inj (sym before ∙ old))
                  ];
              stays = λ o s before kept. elim (str_dec o origin) [
                | yes same ↦ (
                  max p sequence,
                  subst
                      (λ x.
                        find str_dec x (put str_dec origin (max p sequence) c.sequences)
                        ≡ some (max p sequence))
                      (sym same) (find-put_self str_dec origin (max p sequence) c.sequences),
                )
                | no ne ↦ (s, find-put_ne str_dec origin o _ c.sequences ne ∙ before)
              ];
              others = λ o t ne after. sym (find-put_ne str_dec origin o _ c.sequences ne) ∙ after;
            })
    ]
  where
    clash : {o : Option ℕ} {v : ℕ} → o ≡ none → o ≡ some v → ⊥
    clash a b = cc
