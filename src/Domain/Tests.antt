-- ===== src/Domain/Tests.antt =====
-- A payload and its rows, over whole numbers, with the orders as their own documents.
use Prim.Native.Char.{nul as nul}
use mt5_connector.Common.{
  String, [], ap, arith, if◌then◌else◌, nat_eq, none, refl, some, string_eq, suc, zero, ℕ, ◌%◌, ◌*◌,
  ◌+◌, ◌/◌, ◌==◌, ◌∙◌, ◌∷◌, ◌≡◌,
}
use mt5_connector.Common.Int.{negsuc, pos, ℤ}
use mt5_connector.Common.Whole.{whole_float}
use mt5_connector.Domain.Fx.{FxOrder, SyncPayload}
use mt5_connector.Domain.Rows.{
  Documents, Hashing, payload_from_rows, payload_from_rows-rows_from_payload, rows_from_payload,
}
use mt5_connector.Mt5api.Clock.Defs.{IsoText}
use mt5_connector.Mt5api.Clock.Times.{naive}

abbrev pub own_documents : Documents ℤ (FxOrder ℤ)
own_documents = record {
  dump = λ order. order;
  validate = λ order. order;
  validate-dump = λ order. refl;
}

abbrev pub no_hashing : Hashing
no_hashing = record { digest = λ s. s }

-- A text with as many characters as the number.
abbrev pub tally : ℕ → String
tally zero = String.[]
tally (suc n) = String.◌∷◌ nul (tally n)

abbrev pub tally_size : String → ℕ
tally_size String.[] = 0
tally_size (String.◌∷◌ c s) = suc (tally_size s)

pub tally_size-tally : (n : ℕ) → tally_size (tally n) ≡ n
tally_size-tally zero = refl
tally_size-tally (suc n) = omega (arith, tally_size-tally n)

abbrev pub code_of_time : ℤ → ℕ
code_of_time (pos n) = 2 * n
code_of_time (negsuc n) = 2 * n + 1

abbrev pub time_of_code : ℕ → ℤ
time_of_code n = if n % 2 == 0 then pos (n / 2) else negsuc (n / 2)

pub time_of_code-code_of_time : (t : ℤ) → time_of_code (code_of_time t) ≡ t
time_of_code-code_of_time (pos n) = ground arith
time_of_code-code_of_time (negsuc n) = ground arith

abbrev pub tally_text : IsoText
tally_text = record {
  parse_iso = λ s. some (naive (time_of_code (tally_size s)));
  print_iso = λ t. tally (code_of_time t);
  parse-print = λ t.
      ap (λ n. some (naive (time_of_code n))) (tally_size-tally (code_of_time t))
      ∙ ap (λ u. some (naive u)) (time_of_code-code_of_time t);
}

abbrev sample : SyncPayload ℤ
sample = record {
  account_info = record { balance = pos 10; leverage = 100; currency = "USD" };
  equity = pos 10;
  positions = [];
  open_positions =
      record {
        id = "7";
        pair = "EURUSD";
        amount = pos 1;
        side = "LONG";
        entry_price = pos 1;
        current_price = pos 2;
        open_time = some (pos 5);
        open_time_utc = none;
        orders = [];
      }
      ∷ [];
  transactions =
      record { time = some (pos 3); time_utc = none; kind = "DEPOSIT"; amount = pos 10 } ∷ [];
  server_clock = [];
}

payload_from_rows-rows_from_payload_example :
    payload_from_rows own_documents (rows_from_payload tally_text no_hashing own_documents sample)
    ≡ sample
payload_from_rows-rows_from_payload_example =
    payload_from_rows-rows_from_payload own_documents tally_text no_hashing sample
