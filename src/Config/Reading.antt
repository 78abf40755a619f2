-- ===== src/Config/Reading.antt =====
-- How the settings of one struct are read.
use uniswapv3_tick_state.Prelude.{◌≡◌, refl, ap, ◌∙◌, true, Option, none, some, List, [], ◌∷◌, All}
use uniswapv3_tick_state.Result.{ok, bind}
use uniswapv3_tick_state.Bytes.{Bytes}
use uniswapv3_tick_state.Json.{
  Json, object, Field, read_pointer, read_struct, set_member, read_members,
}
use uniswapv3_tick_state.Json.Names.{
  is_ascii, to_lower, names_ascii, fields_ascii, read_members-to_lower,
}
use uniswapv3_tick_state.Config.Settings.{settings, apply_settings, or_else}

module _ {S T : Type 0} (name : S → Bytes) (value : S → Json) (apply : S → T → T) where
  module _ (fields : List (Field T)) (Fits : S → Type 0)
      (plain : (s : S) → is_ascii (name s) ≡ true) where
    names-settings : (ss : List S) → names_ascii (settings name value apply ss) ≡ true
    names-settings [] = refl
    names-settings (s ∷ ss) = rw (plain s) (names-settings ss)

    read_members-settings :
        ((s : S) (x : T)
          → Fits s
          → set_member to_lower fields (name s) (value s) x ≡ ok (apply s x))
        → (ss : List S) (x : T) → All Fits ss
        → read_members to_lower fields (settings name value apply ss) x
          ≡ ok (apply_settings name value apply ss x)
    read_members-settings sets [] x fit = refl
    read_members-settings sets (s ∷ ss) x fit =
        rw (sets s x fit.0) (read_members-settings sets ss (apply s x) fit.1)

    pub read_settings :
        (fold_name : Bytes → Bytes)
        → ((s : Bytes) → is_ascii s ≡ true → fold_name s ≡ to_lower s)
        → fields_ascii fields ≡ true
        → ((s : S) (x : T)
            → Fits s
            → set_member to_lower fields (name s) (value s) x ≡ ok (apply s x))
        → (ss : List S) (x : T) → All Fits ss
        → read_members fold_name fields (settings name value apply ss) x
          ≡ ok (apply_settings name value apply ss x)
    read_settings fold_name law ascii sets ss x fit =
        read_members-to_lower fold_name law fields (settings name value apply ss) x
          (names-settings ss) ascii
        ∙ read_members-settings sets ss x fit

    pub read_section :
        (fold_name : Bytes → Bytes) (new : T)
        → ((s : Bytes) → is_ascii s ≡ true → fold_name s ≡ to_lower s)
        → fields_ascii fields ≡ true
        → ((s : S) (x : T)
            → Fits s
            → set_member to_lower fields (name s) (value s) x ≡ ok (apply s x))
        → (ss : List S) (old : Option T) → All Fits ss
        → read_pointer
            (read_struct fold_name fields)
            new
            (object (settings name value apply ss))
            old
          ≡ ok (some (apply_settings name value apply ss (or_else old new)))
    read_section fold_name new law ascii sets ss none fit =
        ap (λ r. bind r (λ x. ok (some x))) (read_settings fold_name law ascii sets ss new fit)
    read_section fold_name new law ascii sets ss (some x) fit =
        ap (λ r. bind r (λ y. ok (some y))) (read_settings fold_name law ascii sets ss x fit)
