-- ===== src/TextInput/Composition.antt =====
-- A composition session (begin, updates, commit, end), and what typing does while one is open.
use veshell.Base.{
  ℕ, ◌+◌, ◌<◌, ◌≡◌, refl, sym, ap, ◌∙◌, true, false, List, [], ◌∷◌, ◌++◌, some, append-nil,
  append_assoc, length, arith, length-append, Option, ◌>>=◌, ◌==◌, All, ==_iff,
}
use veshell.TextInput.TextRange
use veshell.TextInput.TextRange.{TextRange}
use veshell.TextInput.Model.{
  TextInputModel, splice, begin_composing, update_composing_text, update_composing_text_selection,
  commit_composing, end_composing, usize_limit,
}
use veshell.TextInput.Editing.{add_text, delete_selected, replace_composing, insert_at_selection}
use veshell.TextInput.Refines.{splice-append}

-- A cursor between `xs` and `ys`, with no text composed.
abbrev pub at_cursor : List ℕ → List ℕ → TextRange → TextInputModel
at_cursor xs ys r = record {
  text = xs ++ ys;
  selection = TextRange.new_position (length xs);
  composing_range = r;
  composing = false;
}

-- `t` is composed between `xs` and `ys`, with the cursor behind it.
abbrev pub composed : List ℕ → List ℕ → List ℕ → TextInputModel
composed xs t ys = record {
  text = xs ++ t ++ ys;
  selection = TextRange.new_position (length xs + length t);
  composing_range = TextRange.new (length xs) (length xs + length t);
  composing = true;
}

abbrev pub Fits : List ℕ → List ℕ → Type 0
Fits xs t = length xs + length t < usize_limit

unfoldable pub update_all : List (List ℕ) → TextInputModel → Option TextInputModel
update_all [] m = some m
update_all (t ∷ ts) m = do m' ← update_composing_text m t; update_all ts m'

-- The whole session of an input method: each update replaces the one before.
unfoldable pub compose : List (List ℕ) → TextInputModel → Option TextInputModel
compose ts m = do m' ← update_all ts (begin_composing m); some (end_composing (commit_composing m'))

abbrev pub last_update : List ℕ → List (List ℕ) → List ℕ
last_update t [] = t
last_update t (u ∷ us) = last_update u us

begin-at_cursor :
    (xs ys : List ℕ) (r : TextRange) → begin_composing (at_cursor xs ys r) ≡ composed xs [] ys
unfolding begin_composing
begin-at_cursor xs ys r = ground (arith, append-nil xs)

eq-nil_of_length : (t : List ℕ) → (length t == 0) ≡ true → t ≡ []
eq-nil_of_length [] h = refl
eq-nil_of_length (c ∷ t) h = absurd (omega (arith, (==_iff (length (c ∷ t)) 0).0 h))

splice-composed :
    (xs t ys new : List ℕ)
    → splice (xs ++ t ++ ys) (length xs) (length xs + length t) new ≡ some (xs ++ new ++ ys)
splice-composed xs t ys new =
    splice-append xs t ys new (length xs) (length xs + length t) refl (sym (length-append xs t))
    ∙ ap some (sym (append_assoc xs new ys))

not_collapsed :
    (xs : List ℕ) (c : ℕ) (t : List ℕ) → (length xs == (length xs + length (c ∷ t))) ≡ false
not_collapsed xs c t = ground arith

update-composed :
    (xs t ys new : List ℕ)
    → Fits xs new
    → update_composing_text (composed xs t ys) new ≡ some (composed xs new ys)
unfolding update_composing_text update_composing_text_selection TextRange.set_end
update-composed xs [] ys [] h = ground (arith, splice-composed xs [] ys [])
update-composed xs [] ys (n ∷ new) h =
    rw ((==_iff (length xs) (length xs + 0)).1 (omega arith))
      (ground (arith, splice-composed xs [] ys (n ∷ new)))
update-composed xs (c ∷ t) ys [] h =
    rw (not_collapsed xs c t) (ground (arith, splice-composed xs (c ∷ t) ys []))
update-composed xs (c ∷ t) ys (n ∷ new) h =
    rw (not_collapsed xs c t) (ground (arith, splice-composed xs (c ∷ t) ys (n ∷ new)))

finish-composed :
    (xs t ys : List ℕ)
    → end_composing (commit_composing (composed xs t ys))
      ≡ at_cursor (xs ++ t) ys (TextRange.new_position 0)
unfolding end_composing commit_composing
finish-composed xs t ys = ground (arith, length-append xs t)

update_all-composed :
    (ts : List (List ℕ)) (xs t ys : List ℕ)
    → All (Fits xs) ts
    → update_all ts (composed xs t ys) ≡ some (composed xs (last_update t ts) ys)
unfolding update_all
update_all-composed [] xs t ys h = refl
update_all-composed (u ∷ us) xs t ys h =
    rw (update-composed xs t ys u h.0) (update_all-composed us xs u ys h.1)

-- A session that starts at a cursor leaves the last update in the text, in the place of the
-- cursor, with the cursor behind it and no text composed, whatever the updates before were.
pub compose-at_cursor :
    (ts : List (List ℕ)) (xs ys : List ℕ) (r : TextRange)
    → All (Fits xs) ts
    → compose ts (at_cursor xs ys r)
      ≡ some (at_cursor (xs ++ last_update [] ts) ys (TextRange.new_position 0))
unfolding compose
compose-at_cursor ts xs ys r h =
    rw (begin-at_cursor xs ys r, update_all-composed ts xs [] ys h)
      (ap some (finish-composed xs (last_update [] ts) ys))

-- Typing in an open session replaces the composed text by the new one and inserts the new one
-- once more behind it.
pub add_text-composed :
    (xs t ys new : List ℕ)
    → add_text (composed xs t ys) new
      ≡ some (record {
        text = xs ++ new ++ new ++ ys;
        selection = TextRange.new_position (length xs + length new);
        composing_range = TextRange.new (length xs) (length xs + length new);
        composing = true;
      })
unfolding add_text delete_selected replace_composing insert_at_selection TextRange.set_end
add_text-composed xs t ys new = ground (
  arith,
  splice-composed xs t ys new,
  splice-append xs [] (new ++ ys) new (length xs) (length xs) refl,
  append-nil xs,
  append_assoc xs new ys,
  append_assoc xs new (new ++ ys),
  append_assoc (xs ++ new) new ys,
)
