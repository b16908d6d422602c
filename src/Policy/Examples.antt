-- ===== src/Policy/Examples.antt =====
-- The theorems about the sender policy at concrete inputs.
use smtp_auth_proxy.Prelude.{ℕ, ◌≡◌, refl, ◌↔◌, ◌⊎◌, true, none, some, []}
use smtp_auth_proxy.Strings.{
  codes, str_eq, to_lower, trim_space, trim_left, trim_right, cut_prefix, last_index_byte, lower,
  equal_fold,
}
use smtp_auth_proxy.Policy.Address.{matches_pattern, matches_clean, is_empty}
use smtp_auth_proxy.Policy.Address.Patterns.{Allows, matches_pattern_iff}
use smtp_auth_proxy.Policy.Resolve.{
  resolve, resolve_sender, match_mailbox, default_mailbox, matches_any, apply_from_policy,
  rewritten, accept_rewritten, resolve_linked,
}
use smtp_auth_proxy.Policy.Resolve.Safety.{IsSound, resolve-IsSound}
use smtp_auth_proxy.Policy.Source.{Reaches, check_source_address, check_source_address_iff}
use smtp_auth_proxy.Policy.Fixtures.{tiny_net, account, stranger}

resolve-IsSound_example : IsSound stranger (resolve stranger)
resolve-IsSound_example = resolve-IsSound stranger

-- The account's policy rewrites the stranger's message.
resolve_runs : (resolve stranger).action ≡ rewritten
unfolding resolve resolve_linked resolve_sender match_mailbox default_mailbox matches_any
    matches_pattern matches_clean apply_from_policy accept_rewritten is_empty equal_fold to_lower
    lower trim_space trim_left trim_right cut_prefix last_index_byte str_eq
resolve_runs = refl

matches_pattern_iff_example :
    (matches_pattern (codes "a@lan") (codes " *@LAN") ≡ true)
    ↔ Allows (to_lower (trim_space (codes " *@LAN"))) (codes "a@lan")
matches_pattern_iff_example = matches_pattern_iff (codes "a@lan") (codes " *@LAN")

check_source_address_iff_example : (check_source_address tiny_net account (some 7) ≡ none) ↔ (
    (account.allow_cidrs ≡ [])
    ⊎ ((known : ℕ) × (some 7 ≡ some known) × Reaches tiny_net known account.allow_cidrs))
check_source_address_iff_example = check_source_address_iff tiny_net account (some 7)
