-- ===== src/Keyboard/Rows.antt =====
-- What the builder of src/include/cppgram/keyboard.hpp does to the rows.
use cpp_gram.Common.{
  ℕ, zero, suc, ◌≡◌, refl, List, [], ◌∷◌, ◌++◌, length, if◌then◌else◌, ◌==◌, leb, arith,
}
use cpp_gram.Keyboard.{InlineKeyboardButton, InlineKeyboard, add_button}

-- A row, empty where there is none.
unfoldable pub row_at : ℕ → InlineKeyboard → List InlineKeyboardButton
row_at i [] = []
row_at zero (r ∷ rows) = r
row_at (suc i) (r ∷ rows) = row_at i rows

same_suc : (n m : ℕ) → (suc n == suc m) ≡ (n == m)
same_suc n m = ground arith

-- A button goes to the end of its row, and no other row changes.
pub row_at-add_button :
    (i row : ℕ) (btn : InlineKeyboardButton) (rows : InlineKeyboard)
    → row_at i (add_button row btn rows)
      ≡ (if i == row then row_at i rows ++ btn ∷ [] else row_at i rows)
unfolding row_at add_button
row_at-add_button zero zero btn [] = refl
row_at-add_button zero zero btn (r ∷ rows) = refl
row_at-add_button zero (suc row) btn [] = ground arith
row_at-add_button zero (suc row) btn (r ∷ rows) = ground arith
row_at-add_button (suc i) zero btn [] = ground arith
row_at-add_button (suc i) zero btn (r ∷ rows) = ground arith
row_at-add_button (suc i) (suc row) btn [] = rw (same_suc i row) (row_at-add_button i row btn [])
row_at-add_button (suc i) (suc row) btn (r ∷ rows) =
    rw (same_suc i row) (row_at-add_button i row btn rows)

-- As many empty rows come before it as there have to be.
pub length-add_button :
    (row : ℕ) (btn : InlineKeyboardButton) (rows : InlineKeyboard)
    → length (add_button row btn rows) ≡ (if leb (length rows) row then suc row else length rows)
unfolding add_button
length-add_button zero btn [] = refl
length-add_button zero btn (r ∷ rows) = ground arith
length-add_button (suc row) btn [] = let ih = length-add_button row btn [] in ground arith
length-add_button (suc row) btn (r ∷ rows) = let ih = length-add_button row btn rows in ground arith
