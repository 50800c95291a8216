-- ===== src/Drafts/Tests.antt =====
-- The theorems on drafts at concrete inputs.
use apple_mail_fast_mcp.Base.{
  ◌++◌, is_empty, if◌then◌else◌, ◌≡◌, refl, true, some, List, [], ◌∷◌, All, map,
}
use apple_mail_fast_mcp.Text.{Text, Unicode, codes, lower}
use apple_mail_fast_mcp.Drafts.Builder.{Pair, Draft, derive_reply_recipients, draft_headers}
use apple_mail_fast_mcp.Drafts.Builder.Recipients.{
  keys, AreOthers, derive_reply_recipients-AreOthers,
}
use apple_mail_fast_mcp.Drafts.Builder.Headers.{HasOneLine, draft_headers-HasOneLine}
use apple_mail_fast_mcp.Drafts.Seeds.{
  is_draft_char, has_two_dots, is_draft_id, forward, SeedRecord, done, get_seed, set_seed,
}
use apple_mail_fast_mcp.Drafts.Seeds.Store.{stored, get_seed-set_seed}

abbrev ascii : Unicode
ascii = record { lower_at = λ before c after. c ∷ [] }

-- Headers with one address each, without names
abbrev parsed : List Text → List Pair
parsed [] = []
parsed (h ∷ hs) = ([], h) ∷ parsed hs

abbrev printed : Pair → Text
printed (name, address) =
    if is_empty name then address else name ++ codes " <" ++ address ++ codes ">"

derive_reply_recipients-AreOthers_example :
    (ps : List Pair) × (derive_reply_recipients ascii parsed printed
        (codes "ann@x")
        []
        (codes "me@x")
        (codes "bob@x")
        (codes "ME@x" ∷ [])
        true
      ≡ (map printed (([], codes "ann@x") ∷ []), map printed ps))
    × AreOthers ascii
        (keys ascii (([], codes "ann@x") ∷ []) ++ map (lower ascii) (codes "ME@x" ∷ []))
        (parsed (codes "me@x" ∷ codes "bob@x" ∷ []))
        ps
derive_reply_recipients-AreOthers_example =
    derive_reply_recipients-AreOthers ascii printed parsed (codes "ann@x") [] (codes "me@x")
      (codes "bob@x") (codes "ME@x" ∷ [])

abbrev draft : Draft
draft = record {
  sender = codes "me@x";
  to = codes "ann@x" ∷ [];
  subject = codes "hi\nBcc: eve@x";
  cc = [];
  bcc = [];
  in_reply_to = some (codes "<a@x>");
  references = codes "<a@x>" ∷ [];
}

draft_headers-HasOneLine_example :
    All HasOneLine (draft_headers (codes "<m@x>") (codes "Mon") draft)
draft_headers-HasOneLine_example =
    draft_headers-HasOneLine (codes "<m@x>") (codes "Mon") draft refl refl

abbrev seed : SeedRecord
seed = record { seed_kind = forward; seed_id = codes "7"; reply_all = true }

get_seed-set_seed_example :
    get_seed (codes "a.b@x") (set_seed (codes "a.b@x") seed []).1
    ≡ done (some (stored forward (codes "7") true))
unfolding is_draft_id is_draft_char has_two_dots
get_seed-set_seed_example = get_seed-set_seed (codes "a.b@x") (codes "a.b@x") seed [] refl refl
