-- ===== src/Config/NumRange/Samples.antt =====
-- Ranges of numbers that are written in unary.
use start_os.Common.{
  ℕ, zero, suc, ◌-◌, ◌≡◌, refl, true, Option, some, ◌||◌, ◌==◌, not, all, length, replicate, ok,
  arith,
}
use start_os.S9pk.Bytes.{Bytes}
use start_os.Config.NumRange.{NumRange, Numeral, included, excluded, deserialize, fmt}
use start_os.Config.NumRange.RoundTrip.{deserialize-fmt}

abbrev print : ℕ → Bytes
print n = replicate (suc n) 49

abbrev parse : Bytes → Option ℕ
parse s = some (length s - 1)

length-replicate : (n : ℕ) → length {A = ℕ} (replicate n 49) ≡ n
length-replicate zero = refl
length-replicate (suc n) = omega (arith, length-replicate n)

parse-print : (n : ℕ) → parse (print n) ≡ some n
parse-print n = ground (arith, length-replicate n)

all_plain : (n : ℕ) → all (λ c. not (c == 44 || c == 42)) (replicate n 49) ≡ true
all_plain zero = refl
all_plain (suc n) = all_plain n

print_plain : (n : ℕ) → all (λ c. not (c == 44 || c == 42)) (print n) ≡ true
print_plain n = all_plain (suc n)

abbrev unary : Numeral ℕ
unary = record {
  parse = parse;
  print = print;
  parse-print = parse-print;
  print_plain = print_plain;
}

abbrev range : NumRange ℕ
range = record { start_bound = included 1; end_bound = excluded 3 }

deserialize-fmt_example : deserialize unary (fmt unary range) ≡ ok range
deserialize-fmt_example = deserialize-fmt unary range
