-- ===== src/Config.antt =====
-- proxy/config.py: which domain lists are taken over (`coerce_domain_list`, `_is_valid_domain`,
-- `_normalize_domain_pool`, `refresh_cfproxy_domains`). A string is the list of its code points, and
-- what Unicode says of them is a record handed in.
pub mod Pool
pub mod Settings
use hide_self_tgws.Base.{
  ℕ, Bool, true, false, not, ◌&&◌, ◌||◌, Option, none, some, List, [], ◌∷◌, ◌++◌, map, reverse,
  length, ltb, leb, ◌==◌, if◌then◌else◌,
}
use hide_self_tgws.Base.Dict.{bytes_eq, contains}

pub record Unicode : Type 0 where
  pub is_space : ℕ → Bool
  pub is_alpha : ℕ → Bool
  pub is_alnum : ℕ → Bool
  pub lower : List ℕ → List ℕ

abbrev pub min_valid_domains : ℕ
min_valid_domains = 3

unfoldable pub drop_spaces : Unicode → List ℕ → List ℕ
drop_spaces u [] = []
drop_spaces u (c ∷ cs) = let rest = drop_spaces u cs in if u.is_space c then rest else c ∷ cs

-- `s.strip()`
unfoldable pub strip : Unicode → List ℕ → List ℕ
unfolding drop_spaces
strip u s = reverse (drop_spaces u (reverse (drop_spaces u s)))

unfoldable pub push_char : ℕ → List (List ℕ) → List (List ℕ)
push_char c [] = (c ∷ []) ∷ []
push_char c (label ∷ labels) = (c ∷ label) ∷ labels

-- `domain.split('.')`
unfoldable pub split_dots : List ℕ → List (List ℕ)
unfolding push_char
split_dots [] = [] ∷ []
split_dots (c ∷ cs) = let rest = split_dots cs in if c == 46 then [] ∷ rest else push_char c rest

unfoldable pub is_empty : List ℕ → Bool
is_empty [] = true
is_empty (c ∷ cs) = false

unfoldable pub starts_with : ℕ → List ℕ → Bool
starts_with d [] = false
starts_with d (c ∷ cs) = c == d

unfoldable pub ends_with : ℕ → List ℕ → Bool
ends_with d [] = false
ends_with d (c ∷ []) = c == d
ends_with d (c ∷ b ∷ cs) = ends_with d (b ∷ cs)

unfoldable pub all_chars : (ℕ → Bool) → List ℕ → Bool
all_chars test [] = true
all_chars test (c ∷ cs) = test c && all_chars test cs

unfoldable pub any_char : (ℕ → Bool) → List ℕ → Bool
any_char test [] = false
any_char test (c ∷ cs) = test c || any_char test cs

unfoldable pub is_valid_label : Unicode → List ℕ → Bool
unfolding is_empty starts_with ends_with all_chars
is_valid_label u label =
    if is_empty label || ltb 63 (length label)
    then false
    else if starts_with 45 label || ends_with 45 label
    then false
    else all_chars (λ c. u.is_alnum c || c == 45) label

-- The loop over the labels, and the test of the last of them behind it.
unfoldable pub valid_labels : Unicode → List (List ℕ) → Bool
unfolding is_valid_label any_char
valid_labels u [] = false
valid_labels u (tld ∷ []) =
    is_valid_label u tld && not (ltb (length tld) 2 || not (any_char u.is_alpha tld))
valid_labels u (label ∷ next ∷ labels) = is_valid_label u label && valid_labels u (next ∷ labels)

unfoldable pub is_valid_domain : Unicode → List ℕ → Bool
unfolding is_empty starts_with ends_with split_dots valid_labels
is_valid_domain u domain =
    let labels = split_dots domain in
    if is_empty domain || ltb 253 (length domain)
    then false
    else if starts_with 46 domain || ends_with 46 domain
    then false
    else if leb 2 (length labels)
    then valid_labels u labels
    else false

-- `domain.strip().lower()`
unfoldable pub normalized : Unicode → List ℕ → List ℕ
unfolding strip
normalized u domain = u.lower (strip u domain)

unfoldable pub normalize_loop : Unicode → List (List ℕ) → List (List ℕ) → List (List ℕ)
unfolding normalized is_valid_domain
normalize_loop u seen [] = []
normalize_loop u seen (domain ∷ domains) =
    let item = normalized u domain in
    let skip = normalize_loop u seen domains in
    let take = item ∷ normalize_loop u (item ∷ seen) domains in
    if not (is_valid_domain u item) then skip else (if contains seen item then skip else take)

unfoldable pub normalize_domain_pool : Unicode → List (List ℕ) → List (List ℕ)
unfolding normalize_loop
normalize_domain_pool u domains = normalize_loop u [] domains

-- What `refresh_cfproxy_domains` hands to the balancer, if anything. `user_domains` is what the
-- settings hold when the refresh begins: they are read before the download, which takes up to ten
-- seconds on a thread of its own, and not again behind it. `fetched` is what came from the network,
-- the empty list when that failed.
unfoldable pub refresh_cfproxy_domains :
    Unicode → List (List ℕ) → List (List ℕ) → Option (List (List ℕ))
unfolding normalize_domain_pool
refresh_cfproxy_domains u [] fetched =
    let pool = normalize_domain_pool u fetched in
    if leb min_valid_domains (length pool) then some pool else none
refresh_cfproxy_domains u (domain ∷ user_domains) fetched = none
