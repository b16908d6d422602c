-- ===== src/Config/Examples.antt =====
-- References in an environment with one variable and one file.
use smtp_auth_proxy.Strings.{cut}
use smtp_auth_proxy.Strings.{cut_prefix}
use smtp_auth_proxy.Strings.{index}
use smtp_auth_proxy.Strings.{trim_space}
use smtp_auth_proxy.Prelude.{◌≡◌, refl, true, none, some, ◌∷◌, if◌then◌else◌}
use smtp_auth_proxy.Strings.{codes, str_eq, contains_byte}
use smtp_auth_proxy.Config.Expand.{Environment, expanded, refused, unset_variable, expand, hash}
use smtp_auth_proxy.Config.Expand.Totality.{IsAnswer, expand-IsAnswer, expand_plain, expand_comment}

abbrev env : Environment
env = record {
  lookup = λ name. if str_eq name (codes "HOST") then some (codes "h.example") else none;
  is_abs = λ path. true;
  size = λ path. some 3;
  read_file = λ path. if str_eq path (codes "/run/key") then some (codes "key") else none;
}

expand-IsAnswer_example : IsAnswer (expand env (codes "a: ${HOST} # ${"))
expand-IsAnswer_example = expand-IsAnswer env (codes "a: ${HOST} # ${")

expand_plain_example : expand env (codes "a: 'b''c' # d") ≡ expanded (codes "a: 'b''c' # d")
unfolding contains_byte
expand_plain_example = expand_plain env (codes "a: 'b''c' # d") refl

expand_comment_example :
    expand env (hash ∷ codes " use ${VAR}") ≡ expanded (hash ∷ codes " use ${VAR}")
unfolding contains_byte
expand_comment_example = expand_comment env (codes " use ${VAR}") refl

references :
    expand env (codes "a: ${HOST}, ${PORT:-25}, ${file:/run/key}, $${x} # ${")
    ≡ expanded (codes "a: h.example, 25, key, ${x} # ${")
unfolding expand cut cut_prefix str_eq index trim_space
references = refl

unset : expand env (codes "${PORT}") ≡ refused unset_variable
unfolding expand cut cut_prefix str_eq index
unset = refl
