-- ===== src/Hooks/Github/CiSkip.antt =====
-- webhook_handlers/views/github.py: the regular expression of `regexp_ci_skip`,
-- \[(ci|skip| |-){3,}\], searched for in a message.
use Prim.Native.Char.{code}
use codecov_api.Base.{
  Bool, List, String, [], false, leb, refl, true, ℕ, ◌&&◌, ◌+◌, ◌==◌, ◌||◌, ◌∷◌, ◌≡◌,
}

-- Matches after the opening bracket: the characters that the token at work still needs, and the
-- number of tokens that are complete. No two tokens begin alike, so there is one way to match.
abbrev pub match_tokens : List ℕ → ℕ → String → Bool
match_tokens want n String.[] = false
match_tokens [] n (String.◌∷◌ c s) = elim (code c == b' ' || code c == b'-') [
  | true ↦ match_tokens [] (n + 1) s
  | false ↦ elim (code c == b'c') [
    | true ↦ match_tokens (b'i' ∷ []) n s
    | false ↦ elim (code c == b's') [
      | true ↦ match_tokens (b'k' ∷ b'i' ∷ b'p' ∷ []) n s
      | false ↦ (code c == b']') && leb 3 n
    ]
  ]
]
match_tokens (w ∷ []) n (String.◌∷◌ c s) = elim (code c == w) [
  | true ↦ match_tokens [] (n + 1) s
  | false ↦ false
]
match_tokens (w ∷ v ∷ ws) n (String.◌∷◌ c s) = elim (code c == w) [
  | true ↦ match_tokens (v ∷ ws) n s
  | false ↦ false
]

-- regexp_ci_skip
unfoldable pub ci_skip : String → Bool
ci_skip String.[] = false
ci_skip (String.◌∷◌ c s) = ((code c == b'[') && match_tokens [] 0 s) || ci_skip s

ci_skip_match : ci_skip "Fix [ci skip] now" ≡ true
unfolding ci_skip
ci_skip_match = refl

ci_skip_short : ci_skip "Fix [skip ci" ≡ false
unfolding ci_skip
ci_skip_short = refl

ci_skip_few : ci_skip "Fix [skipci]" ≡ false
unfolding ci_skip
ci_skip_few = refl
