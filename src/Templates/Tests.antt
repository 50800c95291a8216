-- ===== src/Templates/Tests.antt =====
-- The theorems on templates.py at concrete inputs.
use apple_mail_fast_mcp.Base.{◌≡◌, refl, true, false, some, [], ◌∷◌}
use apple_mail_fast_mcp.Text.{
  Text, Unicode, codes, text_eq, is_space, strip, strip_by, lstrip, rstrip,
}
use apple_mail_fast_mcp.Templates.{
  Template, good, is_line_break, parse_template_file, serialize_template, is_valid_name,
}
use apple_mail_fast_mcp.Base.{is_empty}
use apple_mail_fast_mcp.Templates.RoundTrip.{IsSubject, parse-serialize_template}
use apple_mail_fast_mcp.Templates.Store.{SaysWhetherNew, get, save, get-save}

abbrev ascii : Unicode
ascii = record { lower_at = λ before c after. c ∷ [] }

abbrev reply : Template
reply = record {
  name = codes "reply";
  subject = some (codes "Re: you");
  body = codes "Hi {name},\n";
}

reply-IsSubject : IsSubject (codes "Re: you")
unfolding is_line_break is_space
reply-IsSubject = record { one_line = refl; no_leading = refl; no_trailing = refl }

reply_full : is_empty (strip reply.body) ≡ false
unfolding strip strip_by lstrip rstrip is_space
reply_full = refl

reply_valid : is_valid_name (codes "reply") ≡ true
unfolding is_valid_name
reply_valid = refl

parse-serialize_template_example :
    parse_template_file ascii (codes "reply") (serialize_template reply) ≡ good reply
parse-serialize_template_example = parse-serialize_template ascii reply reply-IsSubject reply_full

get-save_example :
    let (answer, files') = save reply [] in
    SaysWhetherNew ascii reply [] answer
    × (get ascii (codes "reply") files' ≡ good reply)
    × ((name : Text)
        → text_eq (codes "reply") name ≡ false
        → get ascii name files' ≡ get ascii name [])
get-save_example = get-save ascii reply [] reply_valid reply-IsSubject reply_full refl
