-- ===== src/Proxy/Journal/Ids.antt =====
-- The numbers of the requests.
use px_smt_multirealm_shim.Common.{ℕ, zero, suc, ◌-◌, ◌≡◌, refl, ◌++◌, length}
use px_smt_multirealm_shim.Bytes.{Bytes}
use px_smt_multirealm_shim.Bytes.Number.{digits_from, decimal}
use px_smt_multirealm_shim.Bytes.Number.Digits.{decimal_reads}
use px_smt_multirealm_shim.Proxy.Journal.{zeros, request_id}

zeros_read : (k : ℕ) (s : Bytes) → digits_from 0 (zeros k ++ s) ≡ digits_from 0 s
unfolding zeros digits_from
zeros_read zero s = refl
zeros_read (suc k) s = zeros_read k s

-- Two requests with one id have one number, also behind the millionth.
pub request_id_injective : (m n : ℕ) → request_id m ≡ request_id n → m ≡ n
unfolding request_id
request_id_injective m n e = cc (
  zeros_read (6 - length (decimal m)) (decimal m),
  zeros_read (6 - length (decimal n)) (decimal n),
  decimal_reads m,
  decimal_reads n,
  e,
)
