-- ===== src/Manager/Reload/Adding.antt =====
-- The second loop of `gw_channel_manager_reload` of
-- rk3588-media-gateway/src/channel/channel_manager.c: what a pass does in each case, and the
-- induction on its passes.
use learn_apue.Base.{
  ℕ, true, false, List, [], ◌∷◌, none, some, ◌≡◌, inl, inr, Bool-cases, Option-cases,
}
use learn_apue.Config.{ChannelConfig, Config}
use learn_apue.Manager.{Entry, Threads, find_free_entry, put_entry}
use learn_apue.Manager.Reload.{Changes, launch, add_channels, skips, no_room, suc_added}

module _ {ℓ} (threads : Threads) (candidate : Config)
    (P : List ChannelConfig → List Entry → Changes → List Entry × Changes → Type ℓ)
    (at_end : (es : List Entry) (c : Changes) → P [] es c (es, c))
    (at_skip : (channel : ChannelConfig) (rest : List ChannelConfig) (es : List Entry) (c : Changes)
        (r : List Entry × Changes)
      → skips es channel ≡ true
      → P rest es c r
      → P (channel ∷ rest) es c r)
    (at_full : (channel : ChannelConfig) (rest : List ChannelConfig) (es : List Entry) (c : Changes)
      → skips es channel ≡ false
      → find_free_entry es ≡ none
      → P (channel ∷ rest) es c (es, no_room c))
    (at_add : (channel : ChannelConfig) (rest : List ChannelConfig) (es : List Entry) (c : Changes)
        (slot : ℕ) (e : Entry) (r : List Entry × Changes)
      → skips es channel ≡ false
      → find_free_entry es ≡ some (slot, e)
      → (let (e', c') = launch threads candidate slot e channel (suc_added c.summary) c in
          P rest (put_entry es slot e') c' r → P (channel ∷ rest) es c r)) where
  pub add_channels_induction :
      (rest : List ChannelConfig) (es : List Entry) (c : Changes)
      → P rest es c (add_channels threads candidate rest es c)
  unfolding add_channels
  add_channels_induction [] es c = at_end es c
  add_channels_induction (channel ∷ rest) es c = elim (Bool-cases (skips es channel)) [
    | inl skipped ↦
        rw (skipped, add_channels)
          (at_skip channel rest es c _ skipped (add_channels_induction rest es c))
    | inr wanted ↦ elim (Option-cases (find_free_entry es)) [
      | inl full ↦ rw (wanted, full, add_channels) (at_full channel rest es c wanted full)
      | inr ((slot, e), q) ↦
          let (e', c') = launch threads candidate slot e channel (suc_added c.summary) c in
          rw (wanted, q, add_channels)
            (at_add channel rest es c slot e _ wanted q
              (add_channels_induction rest (put_entry es slot e') c'))
    ]
  ]
