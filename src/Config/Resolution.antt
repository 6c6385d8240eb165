-- ===== src/Config/Resolution.antt =====
-- Who owns publishing to Kafka, and when the context engine has a URL.
use stream_house_c360_demo.Prelude.{
  inr, inl, Option-cases, String, ◌≡◌, Bool, Option, none, some, ◌&&◌, arith, is_some,
  text_or_empty,
}
use stream_house_c360_demo.Config.{
  Settings, is_set, owns_cdc, is_remote, host_owns_cdc, resolve_cdc_connector, all_parts,
  rtce_mcp_url,
}

abbrev pub owner : Option Bool → Bool → Bool
owner none b = b
owner (some b) _ = b

-- After validation a setting of the flag wins, and else a database URL that is set owns the topics
-- if its host is a remote one. Nothing else changes, and a second validation changes nothing.
pub resolve_cdc_connector-owner :
    (hostname : String → Option String) (s : Settings)
    → let t = resolve_cdc_connector hostname s in
      (owns_cdc t
        ≡ owner s.cdc_connector_enabled (
            is_set s.database_url
            && is_remote (text_or_empty (hostname (text_or_empty s.database_url)))))
      × (resolve_cdc_connector hostname t ≡ t)
      × (record t { cdc_connector_enabled = s.cdc_connector_enabled } ≡ s)
unfolding resolve_cdc_connector host_owns_cdc
resolve_cdc_connector-owner hostname s = (
  (elim (Option-cases s.cdc_connector_enabled) [
    | inl e ↦ (elim (Option-cases s.database_url) [
      | inl u ↦ ground arith
      | inr (url, u) ↦ ground arith
    ])
    | inr (b, e) ↦ ground arith
  ]),
  ground arith,
  ground arith,
)

-- The context engine has a URL exactly when its five parts are set and not empty.
rtce_mcp_url-is_some :
    (s : Settings)
    → is_some (rtce_mcp_url s)
      ≡ is_set s.cloud_region
        && is_set s.cloud_provider
        && is_set s.flink_org_id
        && is_set s.flink_env_id
        && is_set s.kafka_cluster_id
unfolding rtce_mcp_url all_parts
rtce_mcp_url-is_some s = ground arith
