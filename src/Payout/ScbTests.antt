-- ===== src/Payout/ScbTests.antt =====
-- A file of two payouts, one with a comma too many.
use vz.Common.{◌+◌, ◌-◌, ◌≡◌, refl, ◌∷◌, [], map, some, none, length, last?, get_elem?, All, arith}
use vz.Common.Int.{pos, pos_part}
use vz.Common.Sums.{sum_of}
use vz.Common.Csv.{codes, occurrences, split}
use vz.Payout.ScbPayment.{Formats, text, number, new_detail}
use vz.Payout.ScbRecords.{
  ScbPayout, ScbPaymentRecordsBuilder, arguments_of, generate_record, get_result, line,
}
use vz.Payout.ScbFile.{amount_of, of_type, IsClean, get_result_lem, line-split}

-- Digits stand for themselves.
abbrev formats : Formats
formats = record {
  to_fixed = λ a. (48 + pos_part a) ∷ codes ".00";
  date_text = λ d. codes "19/02/2019";
  digits = λ n. (48 + n) ∷ [];
}

abbrev amada : ScbPayout
amada = record {
  id = codes "ZP.22";
  owner = record {
    name = codes "AMADA";
    address = codes "1, Road, Klang";
    swift_code = some (codes "MBBEMYKL");
    account_number = some (codes "5122");
    email_address = none;
  };
  amount = pos 2;
}

abbrev builder : ScbPaymentRecordsBuilder
builder = record {
  id = codes "B1";
  now = 17946;
  payer_account_number = codes "7941";
  payer_city_code = codes "KUL";
  payouts = amada ∷ amada ∷ [];
}

get_result_lem_example :
    (get_elem? (get_result formats builder) 0 ≡ some (text (codes "H") ∷ text (codes "P") ∷ []))
    × (map amount_of (of_type (codes "P") (get_result formats builder))
        ≡ map (λ p. some (text (formats.to_fixed p.amount))) (amada ∷ amada ∷ []))
    × All (λ r. length r ≡ 207) (of_type (codes "P") (get_result formats builder))
    × (length (get_result formats builder)
        ≡ length (of_type (codes "P") (get_result formats builder)) + 3)
    × (last? (get_result formats builder)
        ≡ some (
            text (codes "T")
            ∷ number (length (of_type (codes "P") (get_result formats builder)))
            ∷ text (formats.to_fixed (sum_of (λ p. p.amount) (amada ∷ amada ∷ [])))
            ∷ []))
get_result_lem_example = get_result_lem formats builder amada (amada ∷ []) refl

clean : IsClean formats builder (arguments_of builder amada)
unfolding occurrences
clean = record {
  reference = refl;
  account = refl;
  city = refl;
  day = refl;
  bank = refl;
  payee_account = refl;
  amount = refl;
  email = refl;
}

-- One cell too many.
line-split_example :
    length (
      split 44
        (line formats (generate_record formats (new_detail formats (arguments_of builder amada)))))
    ≡ 207 + occurrences 44 amada.owner.name + (occurrences 44 amada.owner.address - 1)
line-split_example = line-split formats builder amada clean (omega arith)

shifted : 207 + occurrences 44 amada.owner.name + (occurrences 44 amada.owner.address - 1) ≡ 208
unfolding occurrences
shifted = refl
