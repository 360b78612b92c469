-- ===== src/Api/Windows/Cache.antt =====
-- sigmascope/api.py: the inner function `channel` of `_run_windows`, and the dict `channels`.
use sigmascope.Base.{
  true, false, if◌then◌else◌, List, [], ◌∷◌, ◌++◌, ◌≡◌, refl, sym, ap, ◌∙◌, inl, inr, arith,
}
use sigmascope.Base.{Text, ◌==◌, member, none, some, map, In, here, there, In-cons}
use sigmascope.Base.{In-append, Option-cases, Bool-cases, eq_of_==, eq_iff}
use mathlib.Core.List.{append_assoc, append-nil, map-append}
use sigmascope.Model.{CollectionError}
use sigmascope.Evaluate.WindowsGates.{ChannelConfig}
use sigmascope.Evaluate.Auditd.Targets.{Distinct, Distinct-append}
use sigmascope.Api.Policy.{error_list}
use sigmascope.Api.Windows.{Channels, lookup_channel, channel}

abbrev pub names : List (Text × ChannelConfig) → List Text
names = map (λ entry. entry.0)

abbrev pub errors_of : List (Text × ChannelConfig) → List CollectionError
errors_of [] = []
errors_of ((name, config) ∷ rest) = error_list config.error ++ errors_of rest

-- What the cache holds is what the host says; no channel is there twice, and the errors are the
-- ones from the start, then those of the channels, in the order in which they were asked.
pub record IsCache (get_channel_config : Text → ChannelConfig) (start : List CollectionError)
    (channels : Channels) : Type 0 where
  pub agrees :
      (name : Text) (config : ChannelConfig)
      → In (name, config) channels.known
      → config ≡ get_channel_config name
  pub once : Distinct (names channels.known)
  pub reported : channels.errors ≡ start ++ errors_of channels.known

lookup_channel-none :
    (name : Text) (known : List (Text × ChannelConfig))
    → lookup_channel name known ≡ none
    → member name (names known) ≡ false
unfolding lookup_channel
lookup_channel-none name [] h = refl
lookup_channel-none name ((k, config) ∷ rest) h =
    ground (arith, lookup_channel-none name rest, eq_iff k name, eq_iff name k)

lookup_channel-some :
    (name : Text) (known : List (Text × ChannelConfig)) {config : ChannelConfig}
    → lookup_channel name known ≡ some config
    → In (name, config) known
unfolding lookup_channel
lookup_channel-some name [] h = absurd (ground arith)
lookup_channel-some name ((k, c) ∷ rest) h = elim (Bool-cases (k == name)) [
  | inl e ↦ here (cc (eq_of_== e, rw (e, lookup_channel) at h))
  | inr e ↦ there (lookup_channel-some name rest (rw (e, lookup_channel) at h))
]

errors_of-append :
    (xs : List (Text × ChannelConfig)) (name : Text) (config : ChannelConfig)
    → errors_of (xs ++ (name, config) ∷ []) ≡ errors_of xs ++ error_list config.error
errors_of-append [] name config = append-nil _
errors_of-append ((n, c) ∷ xs) name config =
    ap (λ es. error_list c.error ++ es) (errors_of-append xs name config)
    ∙ sym (append_assoc (error_list c.error) (errors_of xs) (error_list config.error))

-- A name goes behind the others, where it is not among them.
unfoldable pub add_name : List Text → Text → List Text
add_name seen name = if member name seen then seen else seen ++ name ∷ []

names-lookup_channel :
    (name : Text) (known : List (Text × ChannelConfig)) (config : ChannelConfig)
    → lookup_channel name known ≡ some config
    → member name (names known) ≡ true
unfolding lookup_channel
names-lookup_channel name [] config h = absurd (ground arith)
names-lookup_channel name ((k, c) ∷ rest) config h =
    ground (arith, names-lookup_channel name rest config, eq_iff k name, eq_iff name k)

-- The channels in the cache are those that were there, and the one that was asked.
pub names-channel :
    (get_channel_config : Text → ChannelConfig) (name : Text) (channels : Channels)
    → names (channel get_channel_config name channels).1.known
      ≡ add_name (names channels.known) name
unfolding channel add_name
names-channel get_channel_config name channels =
    elim (Option-cases (lookup_channel name channels.known)) [
      | inl fresh ↦
          rw (fresh, channel, lookup_channel-none name channels.known fresh)
            (map-append (λ entry. entry.0) channels.known ((name, get_channel_config name) ∷ []))
      | inr (config, found) ↦
          rw (found, channel, names-lookup_channel name channels.known config found) refl
    ]

module _ (get_channel_config : Text → ChannelConfig) (start : List CollectionError) where
  grown :
      (name : Text) (channels : Channels)
      → IsCache get_channel_config start channels
      → lookup_channel name channels.known ≡ none
      → IsCache get_channel_config start (record {
        known = channels.known ++ (name, get_channel_config name) ∷ [];
        errors = channels.errors ++ error_list (get_channel_config name).error;
      })
  grown name channels h fresh = record {
    agrees = λ n c m. elim (In-append channels.known m) [
      | inl old ↦ h.agrees n c old
      | inr last ↦ elim (In-cons last) [ inl same ↦ cc | inr nothing ↦ elim nothing [ ] ]
    ];
    once =
        rw (map-append (λ entry. entry.0) channels.known ((name, get_channel_config name) ∷ []))
          (Distinct-append _ name h.once (lookup_channel-none name channels.known fresh));
    reported =
        ap (λ es. es ++ error_list (get_channel_config name).error) h.reported
        ∙ append_assoc start (errors_of channels.known) _
        ∙ ap (λ es. start ++ es) (sym (errors_of-append channels.known name _));
  }

  -- A channel's configuration is the one that the host gives, asked now or before, and the cache
  -- stays one.
  pub channel-IsCache :
      (name : Text) (channels : Channels)
      → IsCache get_channel_config start channels
      → ((channel get_channel_config name channels).0 ≡ get_channel_config name)
        × IsCache get_channel_config start (channel get_channel_config name channels).1
  unfolding channel
  channel-IsCache name channels h = elim (Option-cases (lookup_channel name channels.known)) [
    | inl fresh ↦ rw (fresh, channel) (refl, grown name channels h fresh)
    | inr (config, found) ↦
        rw (found, channel)
          (h.agrees name config (lookup_channel-some name channels.known found), h)
  ]
