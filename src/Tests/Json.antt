-- ===== src/Tests/Json.antt =====
-- A pair in JSON, with addresses as long texts.
use mathlib.Core.Path.{subst}
use uniswapv3_tick_state.Prelude.{
  ℕ, suc, zero, ◌≡◌, refl, ap, true, false, none, some, [], ◌∷◌, length, pos, negsuc, arith,
}
use uniswapv3_tick_state.Result.{ok}
use uniswapv3_tick_state.Bytes.{Bytes, codes}
use uniswapv3_tick_state.Samples.Memory.{byte_addresses}
use uniswapv3_tick_state.Samples.Documents.{documents, documents-JsonLaws}
use uniswapv3_tick_state.Json.{text, read_text}
use uniswapv3_tick_state.Json.Names.{is_ascii, IsUtf8}
use uniswapv3_tick_state.PairJson.{PairLib, marshal_binary, unmarshal_binary, ThisPair}
use uniswapv3_tick_state.PairJson.RoundTrip.{PairLaws, unmarshal_binary-marshal_binary}

abbrev zeros : ℕ → Bytes
zeros zero = []
zeros (suc n) = 48 ∷ zeros n

length-zeros : (n : ℕ) → length (zeros n) ≡ n
length-zeros zero = refl
length-zeros (suc n) = ap suc (length-zeros n)

zeros_ascii : (n : ℕ) → is_ascii (zeros n) ≡ true
zeros_ascii zero = refl
zeros_ascii (suc n) = zeros_ascii n

abbrev lib : PairLib
lib = record {
  address = byte_addresses;
  hex = zeros;
  from_hex = length;
  Decimal = Bytes;
  decimal_json = text;
  read_decimal = read_text;
  Time = Bytes;
  time_json = λ t. ok (text t);
  read_time = read_text;
}

lib-PairLaws : PairLaws documents lib documents-JsonLaws
unfolding documents-JsonLaws IsUtf8
lib-PairLaws = record {
  from_hex-hex = length-zeros;
  hex_ascii = zeros_ascii;
  read_decimal-decimal_json = λ d old. refl;
  decimal_utf8 = λ d. refl;
  read_time-time_json =
      λ t old j is. let same : text t ≡ j = cc in subst (λ v. read_text v old ≡ ok t) same refl;
  time_utf8 = λ t j is. let same : text t ≡ j = cc in subst (IsUtf8 (λ s. true)) same refl;
}

abbrev stored : ThisPair documents lib
stored = record {
  address = 7;
  tokens_reversed = true;
  token0_core = some (record { address = 3; symbol = codes "WETH"; decimals = pos 18 });
  token1_core = none;
  token0_init_amount = codes "1.5";
  token1_init_amount = codes "0";
  block = 200;
  block_at = codes "2025-01-01T00:00:00Z";
  protocol_id = pos 3;
  filtered = false;
  filter_code = negsuc 0;
  timestamp = codes "2025-01-01T00:00:01Z";
}

abbrev other : ThisPair documents lib
other = record stored { address = 1; token0_core = none; block = 0 }

unmarshal_binary-marshal_binary_example :
    (bs : Bytes) × (marshal_binary documents lib stored ≡ ok bs)
    × (unmarshal_binary documents lib bs other ≡ ok stored)
unmarshal_binary-marshal_binary_example =
    unmarshal_binary-marshal_binary documents lib documents-JsonLaws lib-PairLaws stored other
      (text (codes "2025-01-01T00:00:00Z")) (text (codes "2025-01-01T00:00:01Z"))
      ((refl, documents-JsonLaws.ascii_valid (codes "WETH") refl), tt, omega arith, refl, refl) refl
      refl
