-- ===== src/Url/Roundtrip.antt =====
-- A url is read back from its text.
use latypus.Common.{
  ℕ, zero, suc, ◌+◌, ◌-◌, ◌*◌, ◌/◌, ◌%◌, ◌^◌, ◌<◌, ◌≡◌, refl, ap, ◌∙◌, true, false, none, some,
  List, [], ◌∷◌, ◌++◌, ◌==◌, ltb, All, Bool-cases, inl, inr, if_elim, arith,
}
use latypus.HttpMessage.{same_string, compare_strings}
use latypus.HttpMessage.Names.{same_string-eq}
use latypus.HttpMessage.Decimal.{digits, decimal, read_decimal, read_decimal-decimal}
use latypus.Url.{
  Url, is_separator, find_separator, find_slash, find_last_colon, is_digit, atoi, http_text,
  https_text, default_port, split_host, parse_url, is_default, port_text, to_string,
}

-- A text without a character.
abbrev pub Lacks : ℕ → List ℕ → Type 0
Lacks x = All (λ c. (c == x) ≡ false)

not_separator : (c : ℕ) (cs : List ℕ) → (c == b':') ≡ false → is_separator (c ∷ cs) ≡ false
not_separator c [] h = refl
not_separator c (d ∷ []) h = refl
not_separator c (d ∷ (e ∷ cs)) h = rw h refl

find_separator-append :
    (scheme rest : List ℕ)
    → Lacks b':' scheme
    → find_separator (scheme ++ (b':' ∷ b'/' ∷ b'/' ∷ rest)) ≡ some (scheme, rest)
unfolding find_separator
find_separator-append [] rest h = refl
find_separator-append (c ∷ cs) rest (n, h) =
    rw (not_separator c (cs ++ (b':' ∷ b'/' ∷ b'/' ∷ rest)) n, find_separator-append cs rest h) refl

find_slash-append :
    (host path : List ℕ)
    → Lacks b'/' host
    → find_slash (host ++ (b'/' ∷ path)) ≡ some (host, b'/' ∷ path)
unfolding find_slash
find_slash-append [] path h = refl
find_slash-append (c ∷ cs) path (n, h) = rw (n, find_slash-append cs path h) refl

find_last_colon-none : (host : List ℕ) → Lacks b':' host → find_last_colon host ≡ none
unfolding find_last_colon
find_last_colon-none [] h = refl
find_last_colon-none (c ∷ cs) (n, h) = rw (find_last_colon-none cs h, n) refl

find_last_colon-append :
    (host port : List ℕ)
    → Lacks b':' port
    → find_last_colon (host ++ (b':' ∷ port)) ≡ some (host, port)
unfolding find_last_colon
find_last_colon-append [] port h = rw (find_last_colon-none port h) refl
find_last_colon-append (c ∷ cs) port h = rw (find_last_colon-append cs port h) refl

abbrev Digits : List ℕ → Type 0
Digits = All (λ c. is_digit c ≡ true)

digits-Digits : (fuel n : ℕ) (rest : List ℕ) → Digits rest → Digits (digits fuel n rest)
unfolding digits
digits-Digits zero n rest h = h
digits-Digits (suc fuel) n rest h =
    let d : is_digit (b'0' + n % 10) ≡ true = ground arith in
    if_elim Digits (ltb n 10) (λ _. (d, h))
      λ _. digits-Digits fuel (n / 10) ((b'0' + n % 10) ∷ rest) (d, h)

Digits-Lacks : (x : ℕ) (cs : List ℕ) → is_digit x ≡ false → Digits cs → Lacks x cs
Digits-Lacks x [] h d = tt
Digits-Lacks x (c ∷ cs) h (p, d) = (ground arith, Digits-Lacks x cs h d)

atoi-read_decimal : (n : ℕ) (cs : List ℕ) → Digits cs → atoi n cs ≡ read_decimal n cs
unfolding atoi
atoi-read_decimal n [] d = refl
atoi-read_decimal n (c ∷ cs) (p, d) = rw (p, atoi-read_decimal (10 * n + (c - b'0')) cs d) refl

decimal-Digits : (n : ℕ) → Digits (decimal n)
unfolding decimal
decimal-Digits n = digits-Digits 10 n [] tt

Lacks-append : (x : ℕ) (a b : List ℕ) → Lacks x a → Lacks x b → Lacks x (a ++ b)
Lacks-append x [] b h k = k
Lacks-append x (c ∷ a) b (n, h) k = (n, Lacks-append x a b h k)

append_nil : (a : List ℕ) → a ++ [] ≡ a
append_nil [] = refl
append_nil (c ∷ a) = ap (◌∷◌ c) (append_nil a)

http_not_https : same_string http_text https_text ≡ false
unfolding same_string compare_strings
http_not_https = refl

-- A valid url whose path starts with a slash.
abbrev pub url_of : List ℕ → List ℕ → ℕ → List ℕ → Url
url_of scheme host port path = record {
  scheme = scheme;
  host = host;
  port = port;
  path = b'/' ∷ path;
  valid = true;
}

module _ (scheme host : List ℕ) (port : ℕ) (path : List ℕ) where
  abbrev u : Url
  u = url_of scheme host port path

  port_text-Lacks : Lacks b'/' (port_text u)
  port_text-Lacks =
      if_elim (Lacks b'/') (is_default u) (λ _. tt)
        λ _. (refl, Digits-Lacks b'/' (decimal port) refl (decimal-Digits port))

  default-port : is_default u ≡ true → default_port scheme ≡ port
  unfolding default_port
  default-port h = elim (Bool-cases (same_string scheme http_text)) [
    | inl e ↦
        let other : same_string scheme https_text ≡ false =
          ap (λ (x : List ℕ). same_string x https_text) (same_string-eq scheme http_text e)
          ∙ http_not_https in
        ground arith
    | inr e ↦ ground arith
  ]

  read_port : port < 2 ^ 31 → atoi 0 (decimal port) ≡ port
  read_port p =
      atoi-read_decimal 0 (decimal port) (decimal-Digits port) ∙ read_decimal-decimal port p

  no_colon : Lacks b':' (decimal port)
  no_colon = Digits-Lacks b':' (decimal port) refl (decimal-Digits port)

  split_none :
      (h : List ℕ)
      → Lacks b':' h
      → split_host scheme h (b'/' ∷ path) ≡ url_of scheme h (default_port scheme) path
  unfolding split_host
  split_none h l = rw (find_last_colon-none h l, split_host) refl

  split_some :
      split_host scheme (host ++ (b':' ∷ decimal port)) (b'/' ∷ path)
      ≡ url_of scheme host (atoi 0 (decimal port)) path
  unfolding split_host
  split_some = rw (find_last_colon-append host (decimal port) no_colon, split_host) refl

  split :
      Lacks b':' host → port < 2 ^ 31 → split_host scheme (host ++ port_text u) (b'/' ∷ path) ≡ u
  split h p = elim (Bool-cases (is_default u)) [
    | inl e ↦
        rw (e, append_nil host)
          (split_none host h ∙ ap (λ (k : ℕ). url_of scheme host k path) (default-port e))
    | inr e ↦ rw e (split_some ∙ ap (λ (k : ℕ). url_of scheme host k path) (read_port p))
  ]

  -- `to_string` and the constructor of `url`, for every valid url whose path starts with a slash, whose
  -- scheme has no colon, whose host has neither a colon nor a slash, and whose port is below 2 ^ 31:
  -- the text is read back as the same url, whether the port is written or left to the scheme.
  pub parse_url-to_string :
      Lacks b':' scheme
      → Lacks b':' host
      → Lacks b'/' host
      → port < 2 ^ 31
      → parse_url (to_string u) ≡ u
  unfolding parse_url to_string
  parse_url-to_string s h l p =
      rw
        (
          find_separator-append scheme ((host ++ port_text u) ++ (b'/' ∷ path)) s,
          find_slash-append (host ++ port_text u) path
              (Lacks-append b'/' host (port_text u) l port_text-Lacks),
          parse_url,
        )
        (split h p)
