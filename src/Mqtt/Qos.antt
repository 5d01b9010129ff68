-- ===== src/Mqtt/Qos.antt =====
-- The quality of service as a number: `qos` and `From<QoS> for u8` of
-- src/protocol/src/mqtt/common.rs.
use robustmq.Prelude.{ℕ, ◌≡◌, refl, Bool, true, false, Option, none, some}
use robustmq.Prelude.{◌==◌, if◌then◌else◌, arith}
use robustmq.Mqtt.Outcome.{Outcome, ok, err, Returns, invalid_qos}
use robustmq.Mqtt.Types.Codes.{Qos, at_most_once, at_least_once, exactly_once}

unfoldable pub qos : ℕ → Option Qos
qos num =
    if num == 0
    then some at_most_once
    else if num == 1
    then some at_least_once
    else if num == 2
    then some exactly_once
    else none

unfoldable pub to_u8 : Qos → ℕ
to_u8 at_most_once = 0
to_u8 at_least_once = 1
to_u8 exactly_once = 2

unfoldable pub is_at_most_once : Qos → Bool
is_at_most_once at_most_once = true
is_at_most_once at_least_once = false
is_at_most_once exactly_once = false

-- `qos(num).ok_or(Error::InvalidQoS(num))`.
unfoldable pub qos_or_error : ℕ → Outcome Qos
unfolding qos
qos_or_error num = elim (qos num) [ none ↦ err (invalid_qos num) | some q ↦ ok q ]

pub qos-to_u8 : (q : Qos) → qos (to_u8 q) ≡ some q
unfolding qos to_u8
qos-to_u8 at_most_once = refl
qos-to_u8 at_least_once = refl
qos-to_u8 exactly_once = refl

pub qos_or_error-Returns : (n : ℕ) → Returns (qos_or_error n)
unfolding qos_or_error
qos_or_error-Returns n = ground arith
