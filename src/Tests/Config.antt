-- ===== src/Tests/Config.antt =====
-- Lists of domains on concrete inputs, with Unicode cut down to ASCII letters, digits and spaces.
use hide_self_tgws.Base.{
  take, drop, ℕ, ◌+◌, ◌≤◌, Bool, true, ◌&&◌, ◌||◌, List, [], ◌∷◌, map, length, leb, ◌==◌,
  if◌then◌else◌, some, ◌≡◌, refl,
}
use hide_self_tgws.Base.Dict.{bytes_eq, contains}
use hide_self_tgws.Config.{
  Unicode, min_valid_domains, drop_spaces, strip, push_char, split_dots, is_empty, starts_with,
  ends_with, all_chars, any_char, is_valid_label, valid_labels, is_valid_domain, normalized,
  normalize_loop, normalize_domain_pool, refresh_cfproxy_domains,
}
use hide_self_tgws.Config.Settings.{count_alpha, shift_back, decode_chars, dd}
use hide_self_tgws.Config.Pool.{distinct, refresh_cfproxy_domains_lem}

abbrev lower_char : ℕ → ℕ
lower_char c = if leb 65 c && leb c 90 then c + 32 else c

abbrev letter : ℕ → Bool
letter c = (leb 65 c && leb c 90) || (leb 97 c && leb c 122)

abbrev ascii : Unicode
ascii = record {
  is_space = λ c. c == 32;
  is_alpha = letter;
  is_alnum = λ c. letter c || (leb 48 c && leb c 57);
  lower = map lower_char;
}

-- " A.co", "a.co", "b.co", ".co", "c1.co"
abbrev fetched : List (List ℕ)
fetched =
    (32 ∷ 65 ∷ 46 ∷ 99 ∷ 111 ∷ [])
    ∷ (97 ∷ 46 ∷ 99 ∷ 111 ∷ [])
    ∷ (98 ∷ 46 ∷ 99 ∷ 111 ∷ [])
    ∷ (46 ∷ 99 ∷ 111 ∷ [])
    ∷ (99 ∷ 49 ∷ 46 ∷ 99 ∷ 111 ∷ [])
    ∷ []

abbrev no_domains : List (List ℕ)
no_domains = []

abbrev pool : List (List ℕ)
pool = (97 ∷ 46 ∷ 99 ∷ 111 ∷ []) ∷ (98 ∷ 46 ∷ 99 ∷ 111 ∷ []) ∷ (99 ∷ 49 ∷ 46 ∷ 99 ∷ 111 ∷ []) ∷ []

pool_run : refresh_cfproxy_domains ascii [] fetched ≡ some pool
unfolding refresh_cfproxy_domains normalize_domain_pool normalize_loop normalized strip drop_spaces
    push_char split_dots is_empty starts_with ends_with all_chars any_char is_valid_label
    valid_labels is_valid_domain contains
pool_run = refl

refresh_cfproxy_domains_lem_example :
    (no_domains ≡ [])
    × (min_valid_domains ≤ length pool)
    × (distinct pool ≡ true)
    × (contains pool (98 ∷ 46 ∷ 99 ∷ 111 ∷ []) ≡ (
        contains (map (normalized ascii) fetched) (98 ∷ 46 ∷ 99 ∷ 111 ∷ [])
        && is_valid_domain ascii (98 ∷ 46 ∷ 99 ∷ 111 ∷ [])))
refresh_cfproxy_domains_lem_example =
    refresh_cfproxy_domains_lem ascii no_domains fetched pool (98 ∷ 46 ∷ 99 ∷ 111 ∷ []) pool_run

-- "virkgj.com"
abbrev encoded : List ℕ
encoded = 118 ∷ 105 ∷ 114 ∷ 107 ∷ 103 ∷ 106 ∷ 46 ∷ 99 ∷ 111 ∷ 109 ∷ []

-- "pclead.co.uk"
dd_run : dd ascii encoded ≡ 112 ∷ 99 ∷ 108 ∷ 101 ∷ 97 ∷ 100 ∷ 46 ∷ 99 ∷ 111 ∷ 46 ∷ 117 ∷ 107 ∷ []
unfolding dd count_alpha shift_back decode_chars take drop
dd_run = refl
