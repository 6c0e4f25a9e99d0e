-- ===== src/TextInput/Typing.antt =====
-- Any run of edits from an empty field, and the text and the cursor that it is left with.
use mathlib.Core.List.{reverse, reverse-cons}
use veshell.Base.{
  ℕ, ◌≡◌, refl, sym, ap, ◌∙◌, List, [], ◌∷◌, ◌++◌, some, append-nil, All, length, arith,
  length-append, take-append_length,
}
use veshell.TextInput.TextRange
use veshell.TextInput.TextRange.{TextRange}
use veshell.TextInput.Utf16.{IsScalar, encode_char, encode_utf16, from_utf16_lossy, utf8_len}
use veshell.TextInput.Utf16.Laws.{encode_utf16-append, from_utf16_lossy-encode_utf16}
use veshell.TextInput.Model.{TextInputModel, default, get_text, get_cursor_offset}
use veshell.TextInput.Zipper.{
  Zipper, zipper, IsText, Edit, insert, backspaces, deletes, forward, back, IsEdit, apply,
  apply_all, perform_all, encode_before, shown,
}
use veshell.TextInput.Refines.{perform-apply}

pub apply-IsText :
    (e : Edit) (before after : List ℕ)
    → IsEdit e
    → IsText (zipper before after)
    → IsText (apply e (zipper before after)).0
apply-IsText (insert c) before after v s = ((v, s.0), s.1)
apply-IsText backspaces [] after v s = s
apply-IsText backspaces (c ∷ before) after v s = (s.0.1, s.1)
apply-IsText deletes before [] v s = s
apply-IsText deletes before (c ∷ after) v s = (s.0, s.1.1)
apply-IsText forward before [] v s = s
apply-IsText forward before (c ∷ after) v s = ((s.1.0, s.0), s.1.1)
apply-IsText back [] after v s = s
apply-IsText back (c ∷ before) after v s = (s.0.1, (s.0.0, s.1))

apply_all-IsText :
    (es : List Edit) (z : Zipper) → All IsEdit es → IsText z → IsText (apply_all es z)
apply_all-IsText [] z v s = s
apply_all-IsText (e ∷ es) z v s =
    apply_all-IsText es (apply e z).0 v.1 (apply-IsText e z.before z.after v.0 s)

perform_all-apply_all :
    (es : List Edit) (z : Zipper) (r : TextRange)
    → All IsEdit es
    → IsText z
    → perform_all es (shown z r) ≡ some (shown (apply_all es z) r)
unfolding perform_all
perform_all-apply_all [] z r v s = refl
perform_all-apply_all (e ∷ es) z r v s =
    rw (perform-apply e z.before z.after r v.0 s)
      (perform_all-apply_all es (apply e z).0 r v.1 (apply-IsText e z.before z.after v.0 s))

encode_before-reverse : (cs : List ℕ) → encode_before cs ≡ encode_utf16 (reverse cs)
encode_before-reverse [] = unfold encode_utf16 in refl
encode_before-reverse (c ∷ cs) =
    ap (λ xs. xs ++ encode_char c) (encode_before-reverse cs)
    ∙ sym (
        ap encode_utf16 (reverse-cons c cs)
        ∙ encode_utf16-append (reverse cs) (c ∷ [])
        ∙ ap (encode_utf16 (reverse cs) ++◌) (unfold encode_utf16 in append-nil (encode_char c)))

All-append : (xs ys : List ℕ) → All IsScalar xs → All IsScalar ys → All IsScalar (xs ++ ys)
All-append [] ys h k = k
All-append (x ∷ xs) ys h k = (h.0, All-append xs ys h.1 k)

All-reverse : (xs : List ℕ) → All IsScalar xs → All IsScalar (reverse xs)
All-reverse [] h = tt
All-reverse (x ∷ xs) h =
    rw (reverse-cons x xs) (All-append (reverse xs) (x ∷ []) (All-reverse xs h.1) (h.0, tt))

abbrev pub to_list : Zipper → List ℕ
to_list z = reverse z.before ++ z.after

pub get_text-shown : (z : Zipper) (r : TextRange) → IsText z → get_text (shown z r) ≡ to_list z
unfolding get_text
get_text-shown z r s =
    ap from_utf16_lossy (
      ap (λ xs. xs ++ encode_utf16 z.after) (encode_before-reverse z.before)
      ∙ sym (encode_utf16-append (reverse z.before) z.after))
    ∙ from_utf16_lossy-encode_utf16 _
        (All-append (reverse z.before) z.after (All-reverse z.before s.0) s.1)

get_cursor_offset-shown :
    (z : Zipper) (r : TextRange)
    → IsText z
    → get_cursor_offset (shown z r) ≡ some (utf8_len (reverse z.before))
unfolding get_cursor_offset
get_cursor_offset-shown z r s = ground (
  arith,
  length-append (encode_before z.before) (encode_utf16 z.after),
  take-append_length (encode_before z.before) (encode_utf16 z.after)
      (length (encode_before z.before)) refl,
  encode_before-reverse z.before,
  from_utf16_lossy-encode_utf16 (reverse z.before) (All-reverse z.before s.0),
)

-- Typing, erasing and moving from an empty field never panics, whatever the characters and the
-- order of the edits; the field then holds the text that the same edits of characters make, and
-- the cursor offset counts the UTF-8 bytes of the characters before the cursor.
pub perform_all-default :
    (es : List Edit)
    → All IsEdit es
    → (m : TextInputModel) × (perform_all es default ≡ some m)
      × (get_text m ≡ to_list (apply_all es (zipper [] [])))
      × (get_cursor_offset m ≡ some (utf8_len (reverse (apply_all es (zipper [] [])).before)))
perform_all-default es v =
    let z = apply_all es (zipper [] []) in
    let s = apply_all-IsText es (zipper [] []) v (tt, tt) in
    let r = TextRange.new_position 0 in
    (
      shown z r,
      unfold encode_utf16 in perform_all-apply_all es (zipper [] []) r v (tt, tt),
      get_text-shown z r s,
      get_cursor_offset-shown z r s,
    )
