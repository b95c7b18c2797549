-- ===== src/Credentials/Safety.antt =====
-- What a value that passes the scan cannot hold.
use zworkbench.Common.{◌≡◌, refl, true, false}
use zworkbench.Json.{text, obj, end, field}
use zworkbench.Credentials.{raw_credential}

scan_examples :
    (raw_credential (obj (field "idempotency_key" (text "disk-full-read-access") end)) ≡ false)
    × (raw_credential (text "use sk-abcdefghijkl") ≡ true)
    × (raw_credential (obj (field "Api-Key" (text "x") end)) ≡ true)
    × (raw_credential (obj (field "token_digest" (text "x") end)) ≡ false)
unfolding raw_credential
scan_examples = (refl, refl, refl, refl)
