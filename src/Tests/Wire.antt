-- ===== src/Tests/Wire.antt =====
-- The theorems on messages and their text.
use ircat.Base.{◌≡◌, refl, [], ◌∷◌, ◌++◌, Bytes, codes, bytes_eq, bytes_has_eq}
use ircat.Base.GoMap.{GoMap, Distinct, get}
use ircat.Protocol.Message.{Message, ok}
use ircat.Protocol.Text.{to_upper, is_all_digits, is_letter}
use ircat.Protocol.Tags.{write_tags, sort_tags}
use ircat.Protocol.Tags.RoundTrip.{HasKeys}
use ircat.Protocol.Parse.{parse}
use ircat.Protocol.Parse.Bounds.{IsParsed, parse-IsParsed}
use ircat.Protocol.Encode.{to_bytes, crlf}
use ircat.Protocol.Encode.RoundTrip.{IsWireSafe, as_read, parse-to_bytes}

abbrev hello_tags : GoMap Bytes Bytes
hello_tags = (codes "time", codes "a;b c") ∷ (codes "id", []) ∷ []

abbrev hello : Message
hello = record {
  tags = hello_tags;
  prefix = codes "ann!u@h";
  command = codes "privmsg";
  params = codes "#go" ∷ codes ":hi all" ∷ [];
}

hello_keys : HasKeys hello_tags
hello_keys = (
  record {
    full = refl;
    no_equals = (refl, (refl, (refl, (refl, tt))));
    no_semicolon = (refl, (refl, (refl, (refl, tt))));
    no_space = (refl, (refl, (refl, (refl, tt))));
  },
  (
    record {
      full = refl;
      no_equals = (refl, (refl, tt));
      no_semicolon = (refl, (refl, tt));
      no_space = (refl, (refl, tt));
    },
    tt,
  ),
)

hello-Distinct : Distinct hello_tags
unfolding get bytes_eq
hello-Distinct = (refl, (refl, tt))

hello-IsWireSafe : IsWireSafe hello
hello-IsWireSafe = record {
  keys = hello_keys;
  distinct = hello-Distinct;
  no_space = (refl, (refl, (refl, (refl, (refl, (refl, (refl, tt)))))));
}

abbrev hello_line : Bytes
hello_line = codes "@id;time=a\\:b\\sc :ann!u@h PRIVMSG #go ::hi all" ++ crlf

hello_bytes : to_bytes hello ≡ ok hello_line
unfolding to_bytes sort_tags write_tags to_upper is_all_digits is_letter
hello_bytes = refl

parse-to_bytes_example : parse hello_line ≡ ok (as_read hello)
parse-to_bytes_example = parse-to_bytes hello hello_line hello-IsWireSafe hello_bytes

abbrev ping : Message
ping = record { tags = []; prefix = []; command = codes "PING"; params = codes "x" ∷ [] }

ping_parsed : parse (codes "ping  x") ≡ ok ping
unfolding parse to_upper is_all_digits is_letter
ping_parsed = refl

parse-IsParsed_example : IsParsed ping
parse-IsParsed_example = parse-IsParsed (codes "ping  x") ping ping_parsed
