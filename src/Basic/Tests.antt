-- ===== src/Basic/Tests.antt =====
-- Runs of the tokenizer on small programs.
use xroar_dev.Base.{ℕ, ◌≤◌, ◌<◌, ◌≡◌, refl, List, [], ◌∷◌, ◌++◌, arith, length}
use xroar_dev.Basic.{
  plain, tokenize_cocobas, detokenize_cocobas, tokenize_body, detokenize_body, strip_prefix,
}
use xroar_dev.Error.{ok}
use xroar_dev.Basic.Tables.{codes, coco_statements, coco_functions}
use xroar_dev.Basic.RoundTrip.{detokenize_body-tokenize_body}
use xroar_dev.Basic.Match.{IsClean}

print_line :
    tokenize_cocobas (codes "10 PRINT\"HI\":'X\n")
    ≡ 0xFF ∷ 0x00 ∷ 0x10 ∷ 0x26 ∷ 0x0F ∷ 0x00 ∷ 0x0A ∷ 0x87 ∷ 0x22 ∷ 0x48 ∷ 0x49 ∷ 0x22 ∷ 0x3A
      ∷ 0x3A ∷ 0x83 ∷ 0x58 ∷ 0x00 ∷ 0x00 ∷ 0x00 ∷ []
unfolding tokenize_cocobas coco_statements coco_functions
print_line = refl

print_back :
    detokenize_cocobas (tokenize_cocobas (codes "10 PRINT\"HI\":'X\n20 ?CHR$(65)\n"))
    ≡ ok (codes "10 PRINT\"HI\":'X\n20 PRINTCHR$(65)\n")
unfolding tokenize_cocobas detokenize_cocobas coco_statements coco_functions
print_back = refl

-- The colon that separates ELSE in the source is dropped as if the tokenizer had inserted it.
else_colon_lost :
    detokenize_cocobas (tokenize_cocobas (codes "10 IFA THENB:ELSEC\n"))
    ≡ ok (codes "10 IFA THENBELSEC\n")
unfolding tokenize_cocobas detokenize_cocobas coco_statements coco_functions
else_colon_lost = refl

-- "PRINT" and a string, as the body of a line.
abbrev print_body : List ℕ
print_body = codes "PRINT\"HI\":'X"

long_enough : length print_body ≤ 12
long_enough = omega arith

short_enough : length (tokenize_body 12 plain print_body) < 20
unfolding tokenize_body coco_statements coco_functions
short_enough = omega arith

print_body-IsClean : IsClean print_body
unfolding strip_prefix
print_body-IsClean = (
  omega arith,
  omega arith,
  omega arith,
  λ e. refl,
  (
    omega arith,
    omega arith,
    omega arith,
    λ e. refl,
    (
      omega arith,
      omega arith,
      omega arith,
      λ e. refl,
      (
        omega arith,
        omega arith,
        omega arith,
        λ e. refl,
        (
          omega arith,
          omega arith,
          omega arith,
          λ e. refl,
          (
            omega arith,
            omega arith,
            omega arith,
            λ e. refl,
            (
              omega arith,
              omega arith,
              omega arith,
              λ e. refl,
              (
                omega arith,
                omega arith,
                omega arith,
                λ e. refl,
                (
                  omega arith,
                  omega arith,
                  omega arith,
                  λ e. refl,
                  (
                    omega arith,
                    omega arith,
                    omega arith,
                    λ e. refl,
                    (
                      omega arith,
                      omega arith,
                      omega arith,
                      λ e. refl,
                      (omega arith, omega arith, omega arith, λ e. refl, tt),
                    ),
                  ),
                ),
              ),
            ),
          ),
        ),
      ),
    ),
  ),
)

detokenize_body-tokenize_body_example :
    detokenize_body 20 (tokenize_body 12 plain print_body ++ 0x00 ∷ 7 ∷ []) ≡ (print_body, 7 ∷ [])
detokenize_body-tokenize_body_example =
    detokenize_body-tokenize_body 12 20 plain print_body (7 ∷ []) long_enough short_enough
      print_body-IsClean
