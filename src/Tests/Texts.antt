-- ===== src/Tests/Texts.antt =====
-- utf16.go on concrete texts.
use mezon_sdk_go.Prelude.{◌≡◌, refl, ◌∷◌, some, arith, codes}
use mezon_sdk_go.Utf16.{Runes, encode_rune, utf16_encode, matches_at, search_span, mention_span}
use mezon_sdk_go.Utf16.Mention.{IsMentionSpan, mention_span-IsMentionSpan}

-- "👋 @bob"
abbrev wave_bob : Runes
wave_bob = 0x1f44b ∷ codes " @bob"

mention_span_test : mention_span wave_bob (codes "@bob") ≡ some (3, 7)
unfolding mention_span search_span matches_at utf16_encode encode_rune
mention_span_test = refl

mention_span-IsMentionSpan_example :
    IsMentionSpan wave_bob (codes "@bob") (mention_span wave_bob (codes "@bob"))
mention_span-IsMentionSpan_example =
    mention_span-IsMentionSpan wave_bob (codes "@bob")
      (omega arith, (omega arith, (omega arith, (omega arith, (tt)))))
