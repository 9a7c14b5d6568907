-- ===== src/TerminalFrame/Chunks.antt =====
-- crates/otp-terminal/src/frame.rs, `chunk_input`: the chunks of an input.
use jbuu.Base.{
  ℕ, zero, suc, ◌≤◌, ◌≡◌, refl, ap, ◌∙◌, arith, List, [], ◌∷◌, ◌++◌, length, take, drop, All,
  take-append-drop, length-drop,
}
use jbuu.Base.Bytes.{Bytes}
use jbuu.TerminalFrame.{data_chunk_max, chunks, chunk_input}

abbrev pub joined : List Bytes → Bytes
joined [] = []
joined (x ∷ xs) = x ++ joined xs

-- A chunk that is not empty and not longer than the bound.
abbrev pub IsChunk : ℕ → Bytes → Type 0
IsChunk size x = (1 ≤ length x) × (length x ≤ size)

take-IsChunk : (size : ℕ) (b : ℕ) (bs : Bytes) → 1 ≤ size → IsChunk size (take size (b ∷ bs))
take-IsChunk zero b bs h = absurd (omega arith)
take-IsChunk (suc n) b bs h = (omega arith, shorter)
  where
    shorter_take : (k : ℕ) (xs : Bytes) → length (take k xs) ≤ k
    shorter_take zero xs = omega arith
    shorter_take (suc k) [] = omega arith
    shorter_take (suc k) (x ∷ xs) = omega (arith, shorter_take k xs)

    shorter : length (take (suc n) (b ∷ bs)) ≤ suc n
    shorter = shorter_take (suc n) (b ∷ bs)

chunks-joined :
    (fuel size : ℕ) (body : Bytes)
    → 1 ≤ size
    → length body ≤ fuel
    → (joined (chunks fuel size body) ≡ body) × All (IsChunk size) (chunks fuel size body)
unfolding chunks
chunks-joined zero size [] h k = (refl, tt)
chunks-joined zero size (b ∷ bs) h k = absurd (omega arith)
chunks-joined (suc fuel) size [] h k = (refl, tt)
chunks-joined (suc fuel) size (b ∷ bs) h k =
    let (whole, small) =
      chunks-joined fuel size (drop size (b ∷ bs)) h (omega (arith, length-drop size (b ∷ bs))) in
    (
      ap (λ (x : Bytes). take size (b ∷ bs) ++ x) whole ∙ take-append-drop size (b ∷ bs),
      (take-IsChunk size b bs h, small),
    )

-- The chunks of any input, in their order, are the input, and each of them has a byte at least and no
-- more than an Input frame takes.
pub chunk_input-joined :
    (body : Bytes)
    → (joined (chunk_input body) ≡ body) × All (IsChunk data_chunk_max) (chunk_input body)
unfolding chunk_input
chunk_input-joined body =
    chunks-joined (length body) data_chunk_max body (omega arith) (omega arith)
