-- ===== src/Worker/Identity/RoundTrip.antt =====
-- A valid identity chain is read back from its dictionary (src/zworkbench/worker_contract.py).
use zworkbench.Common.{String, ◌≡◌, false}
use zworkbench.Common.Tables.{All}
use zworkbench.Common.Text.{is_blank}
use zworkbench.Json.{text, get}
use zworkbench.Worker.Base.{
  ◌>>=◌, ◌>>◌, good, checked_text, text_at, mapping, has_unknown, has_missing,
}
use zworkbench.Worker.Identity.{
  IdentityChain, identity_fields, identity_to_dict, identity_from_dict,
}

-- What `__post_init__` has checked.
abbrev pub IdentityValid : IdentityChain → Type 0
IdentityValid c = All (λ f. is_blank f.1 ≡ false) (identity_fields c)

pub checked_text-good : (s : String) → is_blank s ≡ false → checked_text (text s) ≡ good s
unfolding checked_text
checked_text-good s h = rw h

pub identity_from_dict-to_dict :
    (c : IdentityChain) → IdentityValid c → identity_from_dict (identity_to_dict c) ≡ good c
unfolding ◌>>=◌ ◌>>◌ identity_from_dict text_at mapping has_unknown has_missing get
identity_from_dict-to_dict c (a, (b, (d, (e, (f, (g, (h, (i, (j, (k, _)))))))))) =
    simp (a, b, d, e, f, g, h, i, j, k)
