-- ===== src/Permguard/Scan/Findings.antt =====
-- The findings of one operand as a text.
use linux_utilities.Common.{
  ℕ, ◌+◌, ◌≡◌, refl, sym, List, [], ◌∷◌, ◌++◌, inl, inr, Bool-cases, if◌then◌else◌, arith, Bytes,
}
use linux_utilities.Common.Stdio.{Stream, fputs}
use linux_utilities.Common.Stdio.Laws.{fputs-nil, then-fputs, fputc-fputs}
use linux_utilities.Common.Text.{codes}
use linux_utilities.Permguard.Quote.Laws.{quoted, put_escaped_quoted-fputs}
use linux_utilities.Permguard.Scan.{
  bit_set, classify_mode, hazard_names, emit_finding, findings_loop, emit_findings_for_mask,
}

-- Name, tabulator, quoted path.
unfoldable pub finding_text : Bytes → Bytes → Bytes
finding_text code path = ((code ++ b'\t' ∷ []) ++ quoted path) ++ b'\n' ∷ []

emit_finding-fputs :
    (code path : Bytes) (s : Stream) → emit_finding code path s ≡ fputs (finding_text code path) s
unfolding emit_finding finding_text
emit_finding-fputs code path s =
    let tab = then-fputs code (b'\t' ∷ []) s refl (fputc-fputs b'\t') in
    let path_is = then-fputs _ (quoted path) s tab (put_escaped_quoted-fputs path) in
    then-fputs _ (b'\n' ∷ []) s path_is (fputc-fputs b'\n')

mask_text : ℕ → List Bytes → ℕ → Bytes → Bytes
mask_text bit [] mask path = []
mask_text bit (name ∷ names) mask path =
    (if bit_set bit mask then finding_text name path else []) ++ mask_text (bit + 1) names mask path

findings_loop-fputs :
    (bit : ℕ) (names : List Bytes) (mask : ℕ) (path : Bytes) (s : Stream)
    → findings_loop bit names mask path s ≡ fputs (mask_text bit names mask path) s
unfolding findings_loop mask_text
findings_loop-fputs bit [] mask path s = sym (fputs-nil s)
findings_loop-fputs bit (name ∷ names) mask path s = elim (Bool-cases (bit_set bit mask)) [
  | inl e ↦ rw e (
      then-fputs (finding_text name path) (mask_text (bit + 1) names mask path) s
        (emit_finding-fputs name path s) (findings_loop-fputs (bit + 1) names mask path))
  | inr e ↦ rw e (findings_loop-fputs (bit + 1) names mask path s)
]

-- The findings of a mode: one line for each of the four bits that is set, in the documented order.
unfoldable pub mode_text : ℕ → Bytes → Bytes
mode_text mode path =
    (if bit_set 4 mode then finding_text (codes "GROUP_WRITABLE") path else [])
    ++ ((if bit_set 1 mode then finding_text (codes "OTHER_WRITABLE") path else [])
        ++ ((if bit_set 11 mode then finding_text (codes "SET_USER_ID") path else [])
            ++ ((if bit_set 10 mode then finding_text (codes "SET_GROUP_ID") path else []) ++ [])))

-- Each bit of the mask is a bit of the mode.
classify_mode-bits :
    (mode : ℕ)
    → (bit_set 0 (classify_mode mode) ≡ bit_set 4 mode)
      × (bit_set 1 (classify_mode mode) ≡ bit_set 1 mode)
      × (bit_set 2 (classify_mode mode) ≡ bit_set 11 mode)
      × (bit_set 3 (classify_mode mode) ≡ bit_set 10 mode)
unfolding classify_mode
classify_mode-bits mode = ground arith

pub findings-mode_text :
    (mode : ℕ) (path : Bytes) (s : Stream)
    → emit_findings_for_mask (classify_mode mode) path s ≡ fputs (mode_text mode path) s
unfolding emit_findings_for_mask mode_text mask_text
findings-mode_text mode path s =
    let (group, other, user, group_id) = classify_mode-bits mode in
    rw
      (
        findings_loop-fputs 0 hazard_names (classify_mode mode) path s,
        mask_text,
        group,
        other,
        user,
        group_id,
      )
      refl
