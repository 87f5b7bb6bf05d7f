-- ===== src/Config/Storage.antt =====
-- About the settings of the storage that a node accepts (src/storage/config.ts).
use ipfs_node.Base.{ℕ, ◌≤◌, ◌<◌, ◌≡◌, arith, leb, ltb}
use ipfs_node.Config.{
  Section, section, GcInput, StorageInput, GarbageCollectionConfig, StorageConfig,
  default_storage_config, valid, optional_boolean, optional_string, optional_integer, resolve_gc,
  resolve_limits, resolve_storage_config,
}
use ipfs_node.Config.Ensures.{
  Ensures, passes, bind-Ensures, then-Ensures, fail_if-Ensures, Ensures-valid,
  optional_integer-Ensures,
}

pub record GcIsSound (gc : GarbageCollectionConfig) : Type 0 where
  pub some_low : 1 ≤ gc.low_watermark_bytes
  pub in_order : gc.low_watermark_bytes < gc.high_watermark_bytes

-- No limit is zero, which would refuse every request.
pub record LimitsArePositive (c : StorageConfig) : Type 0 where
  pub requests : 1 ≤ c.max_request_size_bytes
  pub uploads : 1 ≤ c.max_concurrent_uploads
  pub downloads : 1 ≤ c.max_concurrent_downloads
  pub share : 1 ≤ c.max_concurrent_downloads_per_client
  pub ttl : 1 ≤ c.temporary_ttl_ms
  pub collector : GcIsSound c.gc

pub record IsSound (upload_limit : ℕ) (c : StorageConfig) : Type 0 where
  pub positive : LimitsArePositive c
  pub fits_a_file : upload_limit ≤ c.max_request_size_bytes
  pub share_applies : c.max_concurrent_downloads_per_client ≤ c.max_concurrent_downloads

gc-Ensures : (input : GcInput) → Ensures GcIsSound (resolve_gc input default_storage_config.gc)
unfolding resolve_gc
gc-Ensures input = then-Ensures (optional_boolean input.enabled _ _) λ e.
    then-Ensures (optional_string input.schedule _ _) λ s.
      bind-Ensures (optional_integer input.high_watermark_bytes _ _ _)
        (optional_integer-Ensures input.high_watermark_bytes _ _ _ (omega arith))
        λ high h.
          bind-Ensures (optional_integer input.low_watermark_bytes _ _ _)
            (optional_integer-Ensures input.low_watermark_bytes _ _ _ (omega arith))
            λ low l.
              fail_if-Ensures (leb high low) _
                λ o. passes (record { some_low = l; in_order = ground (arith, o) })

limits-Ensures :
    (input : StorageInput) (gc : GarbageCollectionConfig)
    → GcIsSound gc
    → Ensures LimitsArePositive (resolve_limits input default_storage_config gc)
unfolding resolve_limits
limits-Ensures input gc g =
    bind-Ensures (optional_integer input.max_request_size_bytes _ _ _)
      (optional_integer-Ensures input.max_request_size_bytes _ _ _ (omega arith))
      λ request r.
        bind-Ensures (optional_integer input.max_concurrent_uploads _ _ _)
          (optional_integer-Ensures input.max_concurrent_uploads _ _ _ (omega arith))
          λ uploads u.
            bind-Ensures (optional_integer input.max_concurrent_downloads _ _ _)
              (optional_integer-Ensures input.max_concurrent_downloads _ _ _ (omega arith))
              λ downloads d.
                bind-Ensures (optional_integer input.max_concurrent_downloads_per_client _ _ _)
                  (optional_integer-Ensures input.max_concurrent_downloads_per_client _ _ _
                    (omega arith))
                  λ share s.
                    then-Ensures (optional_integer input.disk_reserve_bytes _ _ _) λ reserve.
                      then-Ensures (optional_boolean input.confirmation_required _ _)
                        λ confirmation.
                          bind-Ensures (optional_integer input.temporary_ttl_ms _ _ _)
                            (optional_integer-Ensures input.temporary_ttl_ms _ _ _ (omega arith))
                            λ ttl t. passes (record {
                              requests = r;
                              uploads = u;
                              downloads = d;
                              share = s;
                              ttl = t;
                              collector = g;
                            })

storage-Ensures :
    (raw : Section StorageInput) (upload_limit : ℕ)
    → Ensures (IsSound upload_limit) (resolve_storage_config raw upload_limit)
unfolding resolve_storage_config
storage-Ensures raw upload_limit = then-Ensures (section _ raw _) λ input.
    then-Ensures (section _ input.gc _) λ gc_input.
      bind-Ensures (resolve_gc gc_input _) (gc-Ensures gc_input) λ gc g.
        bind-Ensures (resolve_limits input _ gc) (limits-Ensures input gc g) λ storage p.
          fail_if-Ensures (ltb storage.max_request_size_bytes upload_limit) _ λ a.
            fail_if-Ensures
              (ltb storage.max_concurrent_downloads storage.max_concurrent_downloads_per_client) _
              λ b. passes (record {
                positive = p;
                fits_a_file = ground (arith, a);
                share_applies = ground (arith, b);
              })

-- Whatever the file holds: settings that are accepted let a request of one largest file through, do
-- not let one client's share exceed the bound on downloads, have no limit of zero, and have a low
-- watermark that is not zero and lies below the high one.
pub resolve_storage_config-IsSound :
    (raw : Section StorageInput) (upload_limit : ℕ) (c : StorageConfig)
    → resolve_storage_config raw upload_limit ≡ valid c
    → IsSound upload_limit c
resolve_storage_config-IsSound raw upload_limit c h =
    Ensures-valid (resolve_storage_config raw upload_limit) (storage-Ensures raw upload_limit) h
