-- ===== src/Server/HostPort.antt =====
-- lib/util.js: `validateHostPort`, on the character codes of a string.
use mathlib.Core.List.{append-nil, append_assoc}
use ringpop_node.Common.{
  ℕ, suc, ◌≡◌, refl, String, Bool, false, ◌&&◌, ◌||◌, List, [], ◌∷◌, ◌++◌, if◌then◌else◌, ◌==◌, leb,
  codes, arith, sym, ap,
}

-- `split(':')`: the parts between the colons, where `part` is what was read of the current one.
split_from : List ℕ → List ℕ → List (List ℕ)
split_from part [] = part ∷ []
split_from part (c ∷ cs) =
    if c == 58 then part ∷ split_from [] cs else split_from (part ++ c ∷ []) cs

unfoldable pub split : List ℕ → List (List ℕ)
unfolding split_from
split cs = split_from [] cs

between : ℕ → ℕ → ℕ → Bool
between low high c = leb low c && leb c high

-- The white space and line terminators of JavaScript.
is_space : ℕ → Bool
unfolding between
is_space c =
    between 9 13 c
    || (c == 32
        || (c == 160
            || (c == 5760
                || (between 8192 8202 c
                    || (between 8232 8233 c
                        || (c == 8239 || (c == 8287 || (c == 12288 || c == 65279))))))))

skip_spaces : List ℕ → List ℕ
unfolding is_space
skip_spaces [] = []
skip_spaces (c ∷ cs) = if is_space c then skip_spaces cs else c ∷ cs

skip_sign : List ℕ → List ℕ
skip_sign [] = []
skip_sign (c ∷ cs) = if c == 43 || c == 45 then cs else c ∷ cs

starts_with_digit : List ℕ → Bool
unfolding between
starts_with_digit [] = false
starts_with_digit (c ∷ cs) = between 48 57 c

-- `!isNaN(parseInt(part, 10))`: after spaces and a sign there is a digit.
unfoldable pub is_number : List ℕ → Bool
unfolding skip_spaces skip_sign starts_with_digit
is_number part = starts_with_digit (skip_sign (skip_spaces part))

-- `isColonSeparated` and `isPort`.
unfoldable pub is_host_port : List (List ℕ) → Bool
unfolding is_number
is_host_port (host ∷ port ∷ []) = is_number port
is_host_port _ = false

unfoldable pub validate_host_port : String → Bool
unfolding split is_host_port
validate_host_port host_port = is_host_port (split (codes host_port))

-- The number of colons.
abbrev pub colons : List ℕ → ℕ
colons [] = 0
colons (c ∷ cs) = if c == 58 then suc (colons cs) else colons cs

-- What follows the first colon.
abbrev pub after_colon : List ℕ → List ℕ
after_colon [] = []
after_colon (c ∷ cs) = if c == 58 then cs else after_colon cs

-- Three parts are no host and port.
three : (a b part cs : List ℕ) → is_host_port (a ∷ b ∷ split_from part cs) ≡ false
unfolding is_host_port split_from
three a b part [] = refl
three a b part (c ∷ cs) = ground (arith, three a b (part ++ c ∷ []) cs)

-- With a part before them, the rest must hold no further colon and be the port.
is_host_port-port :
    (host part cs : List ℕ)
    → is_host_port (host ∷ split_from part cs) ≡ (colons cs == 0 && is_number (part ++ cs))
unfolding is_host_port split_from
is_host_port-port host part [] = ap is_number (sym (append-nil part))
is_host_port-port host part (c ∷ cs) = ground (
  arith,
  three host part [] cs,
  is_host_port-port host (part ++ c ∷ []) cs,
  append_assoc part (c ∷ []) cs,
)

is_host_port-split_from :
    (part cs : List ℕ)
    → is_host_port (split_from part cs) ≡ (colons cs == 1 && is_number (after_colon cs))
unfolding is_host_port split_from
is_host_port-split_from part [] = refl
is_host_port-split_from part (c ∷ cs) =
    ground (arith, is_host_port-port part [] cs, is_host_port-split_from (part ++ c ∷ []) cs)

-- A host and port is valid exactly if it has one colon and what follows it begins, after spaces and
-- a sign, with a digit.
pub validate_host_port_lem :
    (s : String)
    → validate_host_port s ≡ (colons (codes s) == 1 && is_number (after_colon (codes s)))
unfolding validate_host_port
validate_host_port_lem s = is_host_port-split_from [] (codes s)
