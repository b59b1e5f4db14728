-- ===== src/Examples/Constants.antt =====
-- Constant expressions folded. Integers stand for floating point numbers.
use spicy.Base.{
  suc, ◌*◌, ◌≡◌, refl, true, false, some, ok, err, undefined, result_error, ℤ, pos, negsuc, less,
  overflow,
}
use spicy.Integer.{w8, w16, w64}
use spicy.Folding.{
  Doubles, bool, signed_integer, unsigned_integer, interval, ctor, grouping, logical_or, sign_neg,
  negated_signed, negated_unsigned, integer_ctor, signed, unsigned, Expression, fold_constant,
  signed_secs, interval_ctor, minus,
}
use spicy.Folding.Evaluation.{evaluate}
use spicy.Folding.Agreement.{fold_constant-evaluate, evaluate-fold_constant}

abbrev billion : ℤ → ℤ
billion (pos n) = pos (n * 1000000000)
billion (negsuc n) = minus (pos (suc n * 1000000000))

abbrev whole_numbers : Doubles ℤ
whole_numbers = record {
  of_int = λ z. z;
  times_billion = billion;
  is_less = less;
  opposite = minus;
  to_signed64 = ok;
  to_unsigned64 = λ z. elim z [ pos n ↦ ok n | negsuc n ↦ err overflow ];
}

-- The type of the argument is forgotten: int16(int8(300)) is folded, though 300 is no int8.
limits_forgotten :
    fold_constant whole_numbers (
      integer_ctor signed signed w16
        (integer_ctor signed signed w8 (ctor (signed_integer (pos 300) w64))))
    ≡ ok (some (signed_integer (pos 300) w16))
unfolding fold_constant
limits_forgotten = refl

-- The opposite of the least number of 64 bits is undefined.
least_negated :
    fold_constant whole_numbers
      (sign_neg negated_signed (ctor (signed_integer (negsuc 9223372036854775807) w64)))
    ≡ err undefined
unfolding fold_constant
least_negated = refl

-- An operand that the other one makes irrelevant is folded too.
both_operands :
    fold_constant whole_numbers (
      logical_or
        (ctor (bool true))
        (integer_ctor signed unsigned w64 (ctor (unsigned_integer 9223372036854775808 w64))))
    ≡ err result_error
unfolding fold_constant
both_operands = refl

-- interval(-uint8(3)).
abbrev three_secs : Expression ℤ
three_secs =
    interval_ctor signed_secs (grouping (sign_neg negated_unsigned (ctor (unsigned_integer 3 w8))))

three_secs_folded :
    fold_constant whole_numbers three_secs ≡ ok (some (interval (negsuc 2999999999)))
unfolding fold_constant
three_secs_folded = refl

fold_constant_example :
    evaluate whole_numbers false three_secs ≡ some (interval (negsuc 2999999999))
fold_constant_example =
    fold_constant-evaluate whole_numbers three_secs (interval (negsuc 2999999999)) three_secs_folded

evaluate_example : fold_constant whole_numbers three_secs ≡ ok (some (interval (negsuc 2999999999)))
unfolding evaluate
evaluate_example =
    evaluate-fold_constant whole_numbers three_secs (interval (negsuc 2999999999)) refl refl
