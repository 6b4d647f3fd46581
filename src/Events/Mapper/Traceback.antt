-- ===== src/Events/Mapper/Traceback.antt =====
-- `traceback_tail` of src/z4j_celery/events/mapper.py.
use Prim.Native.String.{◌++◌, ◌∷◌, []}
use Prim.Native.String.append
use z4j_celery.Prelude.{
  ℕ, zero, suc, ◌+◌, ◌-◌, ◌≤◌, ◌<◌, ◌≡◌, arith, String, Option, none, some, leb, eqb, if◌then◌else◌,
  ap, ◌∙◌,
}
use z4j_celery.Prelude.Text.{length, take, drop}

abbrev pub traceback_max_chars : ℕ
traceback_max_chars = 4096

abbrev pub traceback_truncated_marker : String
traceback_truncated_marker = "[... traceback truncated ...]\n"

-- `s[-n:]`: with n = 0 that is the whole text.
abbrev pub last_chars : ℕ → String → String
last_chars n s = if eqb n 0 then s else drop (length s - n) s

unfoldable pub traceback_tail : Option String → ℕ → Option String
traceback_tail none limit = none
traceback_tail (some traceback) limit =
    if leb (length traceback) limit
    then some traceback
    else some (traceback_truncated_marker ++ last_chars limit traceback)

length-append : (s t : String) → length (s ++ t) ≡ length s + length t
length-append [] t = ap length (append.nil t) ∙ omega arith
length-append (c ∷ s) t = ap length (append.cons c s t) ∙ omega (arith, length-append s t)

length-drop : (n : ℕ) (s : String) → length (drop n s) ≡ length s - n
length-drop zero s = omega arith
length-drop (suc n) [] = omega arith
length-drop (suc n) (c ∷ s) = omega (arith, length-drop n s)

take-append-drop : (n : ℕ) (s : String) → take n s ++ drop n s ≡ s
take-append-drop zero s = append.nil s
take-append-drop (suc n) [] = append.nil []
take-append-drop (suc n) (c ∷ s) =
    append.cons c (take n s) (drop n s) ∙ ap (λ t. c ∷ t) (take-append-drop n s)

-- At a positive limit: a text within the limit is kept whole. A longer one becomes the marker and its last characters,
-- exactly as many as the limit, so the result is at most the marker longer than the limit.
pub traceback_tail_lem :
    (traceback : String) (limit : ℕ)
    → 0 < limit
    → (length traceback ≤ limit → traceback_tail (some traceback) limit ≡ some traceback)
      × (limit < length traceback
          → (front : String) × (back : String) × (front ++ back ≡ traceback)
            × (length back ≡ limit)
            × (traceback_tail (some traceback) limit ≡ some (traceback_truncated_marker ++ back))
            × (length (traceback_truncated_marker ++ back) ≡ limit + 30))
unfolding traceback_tail
traceback_tail_lem traceback limit pos =
    let cut : ℕ = length traceback - limit in
    (
      λ h. ground arith,
      λ h. (
        take cut traceback,
        drop cut traceback,
        take-append-drop cut traceback,
        omega (arith, length-drop cut traceback),
        ground arith,
        omega (
          arith,
          length-append traceback_truncated_marker (drop cut traceback),
          length-drop cut traceback,
        ),
      ),
    )
