-- ===== src/Manager/Reload/Unaffected.antt =====
-- What `gw_channel_manager_reload` of rk3588-media-gateway/src/channel/channel_manager.c leaves alone.
use learn_apue.Base.{
  ℕ, zero, suc, Bool, true, false, List, [], ◌∷◌, Option, some, ◌≡◌, arith, get_elem?, set,
}
use learn_apue.Base.Text.{Bytes}
use learn_apue.Config.{ChannelConfig, Config}
use learn_apue.Config.Validate.{validate}
use learn_apue.Manager.{Entry, Manager, Threads, channel_of, find_enabled_channel}
use learn_apue.Manager.Equal.{channel_config_equal_iff, worker_globals_equal_iff}
use learn_apue.Manager.Registry.{find_free_entry-stood}
use learn_apue.Manager.Reload.{
  Changes, launch, reload_entry, reload_entries, add_channels, suc_added, apply_candidate,
  no_changes, reload,
}
use learn_apue.Manager.Reload.Adding.{add_channels_induction}
use learn_apue.Status.{ok, GwError}

-- The candidate has the channel of the entry as it is, and what all workers depend on.
pub record IsUnaffected (old candidate : Config) (e : Entry) : Type 0 where
  pub taken : e.occupied ≡ true
  pub channel_kept : find_enabled_channel candidate.channels (channel_of e).id ≡ some (channel_of e)
  pub url_kept : old.mediamtx.publish_base_url ≡ candidate.mediamtx.publish_base_url
  pub policy_kept : old.defaults ≡ candidate.defaults

reload_entry-unaffected :
    (threads : Threads) (candidate : Config) (slot : ℕ) (e : Entry) (c : Changes)
    → e.occupied ≡ true
    → find_enabled_channel candidate.channels (channel_of e).id ≡ some (channel_of e)
    → (reload_entry threads true candidate slot e c).0 ≡ e
unfolding reload_entry
reload_entry-unaffected threads candidate slot e c taken found =
    ground (arith, channel_config_equal_iff (channel_of e) (channel_of e))

get_elem?-reload_entries :
    (threads : Threads) (candidate : Config) (slot : ℕ) (es : List Entry) (c : Changes) (index : ℕ)
    {e : Entry}
    → get_elem? es index ≡ some e
    → e.occupied ≡ true
    → find_enabled_channel candidate.channels (channel_of e).id ≡ some (channel_of e)
    → get_elem? (reload_entries threads true candidate slot es c).0 index ≡ some e
unfolding reload_entries
get_elem?-reload_entries threads candidate slot [] c index at taken found = absurd (ground arith)
get_elem?-reload_entries threads candidate slot (x ∷ es) c zero at taken found =
    ground (arith, reload_entry-unaffected threads candidate slot x c)
get_elem?-reload_entries threads candidate slot (x ∷ es) c (suc index) {e} at taken found =
    let x' = reload_entry threads true candidate slot x c in
    get_elem?-reload_entries threads candidate (suc slot) es x'.1 index {e = e} at taken found

-- A write to a free slot leaves the taken ones alone.
get_elem?-put :
    (es : List Entry) (free index : ℕ) (f f' : Entry) {e : Entry}
    → get_elem? es free ≡ some f
    → f.occupied ≡ false
    → get_elem? es index ≡ some e
    → e.occupied ≡ true
    → get_elem? (set es free f') index ≡ some e
get_elem?-put [] free index f f' stood vacant at taken = absurd (ground arith)
get_elem?-put (x ∷ es) zero zero f f' stood vacant at taken = absurd (ground arith)
get_elem?-put (x ∷ es) zero (suc index) f f' stood vacant at taken = at
get_elem?-put (x ∷ es) (suc free) zero f f' stood vacant at taken = at
get_elem?-put (x ∷ es) (suc free) (suc index) f f' {e} stood vacant at taken =
    get_elem?-put es free index f f' {e = e} stood vacant at taken

abbrev Keeps : ℕ → Entry → List ChannelConfig → List Entry → Changes → List Entry × Changes → Type 0
Keeps index e rest es c r = get_elem? es index ≡ some e → get_elem? r.0 index ≡ some e

add_channels-Keeps :
    (threads : Threads) (candidate : Config) (index : ℕ) (e : Entry)
    → e.occupied ≡ true
    → (rest : List ChannelConfig) (es : List Entry) (c : Changes)
    → Keeps index e rest es c (add_channels threads candidate rest es c)
add_channels-Keeps threads candidate index e taken =
    add_channels_induction threads candidate (Keeps index e) (λ es c at. at)
      (λ channel rest es c r skipped ih at. ih at) (λ channel rest es c wanted full at. at)
      (λ channel rest es c slot f r wanted q ih at.
        let f' = (launch threads candidate slot f channel (suc_added c.summary) c).0 in
        let (stood, vacant) = find_free_entry-stood es {slot = slot} {e = f} q in
        ih (get_elem?-put es slot index f f' {e = e} stood vacant at taken))

-- A reload does not touch an entry whose channel the candidate has unchanged, when the publish URL
-- and the retry policy are unchanged too: its thread, its generation and its snapshot stay as they
-- are, whatever is removed, restarted or added around it.
pub reload_unaffected :
    (is_ipv4 is_ipv6 : Bytes → Bool) (threads : Threads) (m : Manager) (candidate : Config)
    (error : Option GwError) (index : ℕ) (e : Entry)
    → get_elem? m.entries index ≡ some e
    → IsUnaffected m.config candidate e
    → get_elem? (reload is_ipv4 is_ipv6 threads m candidate error).manager.entries index ≡ some e
unfolding reload apply_candidate
reload_unaffected is_ipv4 is_ipv6 threads m candidate error index e at u =
    let (status, error') = validate is_ipv4 is_ipv6 candidate error in
    let start : Changes = record {
      summary = no_changes;
      active = m.active_threads;
      final_status = ok;
      error = error';
    } in
    let (es, c) = reload_entries threads true candidate 0 m.entries start in
    ground (
      arith,
      u,
      worker_globals_equal_iff m.config candidate,
      get_elem?-reload_entries threads candidate 0 m.entries start index {e = e} at u.taken
          u.channel_kept,
      add_channels-Keeps threads candidate index e u.taken candidate.channels es c,
    )
