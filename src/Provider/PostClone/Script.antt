-- ===== src/Provider/PostClone/Script.antt =====
-- provider/cocoon/postclone.go: what is run in a guest after a clone, and the script that an operator
-- can paste.
use Prim.Native.Char.{code}
use Prim.Native.String.{◌++◌ as append_text}
use vk_cocoon.Base.{
  ℕ, suc, Bool, true, false, Option, none, some, String, List, [], ◌∷◌, ◌++◌, ◌==◌, nat_eq,
  if◌then◌else◌,
}
use vk_cocoon.Cli.{decimal}
use vk_cocoon.Kube.{VmSpec, Meta}
use vk_cocoon.Spec.{post_clone_needed}
use vk_cocoon.Vm.{Vm, NetworkConfig, NetworkInfo, is_static_nic, backend_firecracker}
use vk_cocoon.Provider.Image.{is_http_url}
use vk_cocoon.Provider.World.{Env, Io, stat_overlay, ◌>>=◌, pure, call}

-- `fmt.Sprintf` and `strings.Join`, on the pieces.
unfoldable pub concat : List String → String
concat [] = ""
concat (s ∷ rest) = append_text s (concat rest)

unfoldable pub join_lines : List String → String
join_lines [] = ""
join_lines (s ∷ []) = s
join_lines (s ∷ t ∷ rest) = append_text s (append_text "\n" (join_lines (t ∷ rest)))

-- `strings.ReplaceAll(mac, ":", "")`.
unfoldable pub without_colons : String → String
without_colons String.[] = String.[]
without_colons (String.◌∷◌ c s) =
    let rest = without_colons s in if nat_eq (code c) 58 then rest else String.◌∷◌ c rest

abbrev dhcp_config : String → String
dhcp_config mac = concat (
    "[Match]\\nMACAddress=" ∷ mac
    ∷ "\\n\\n[Network]\\nDHCP=ipv4\\n\\n[DHCPv4]\\nClientIdentifier=mac\\n" ∷ [])

abbrev static_config : String → Option NetworkInfo → String
static_config mac none = dhcp_config mac
static_config mac (some info) = concat (
    "[Match]\\nMACAddress="
    ∷ mac
    ∷ "\\n\\n[Network]\\nAddress="
    ∷ info.ip
    ∷ "/"
    ∷ decimal info.prefix
    ∷ "\\nGateway="
    ∷ info.gateway
    ∷ "\\n"
    ∷ [])

-- `buildNetworkdFileCmd`.
unfoldable pub build_networkd_file_cmd : NetworkConfig → String
build_networkd_file_cmd nc =
    let cfg = if is_static_nic nc then static_config nc.mac nc.network else dhcp_config nc.mac in
    concat
      ("printf '" ∷ cfg ∷ "' > /etc/systemd/network/10-" ∷ without_colons nc.mac ∷ ".network" ∷ [])

abbrev address_cmd : ℕ → String → String
address_cmd i mac =
    let dev = append_text "eth" (decimal i) in
    concat (
      "ip link set dev " ∷ dev ∷ " down && ip link set dev " ∷ dev ∷ " address " ∷ mac
      ∷ " && ip link set dev " ∷ dev ∷ " up" ∷ [])

-- The MAC addresses of a Firecracker guest, from the NIC number `i` on.
unfoldable pub address_cmds : ℕ → List NetworkConfig → List String
address_cmds i [] = []
address_cmds i (nc ∷ rest) = address_cmd i nc.mac ∷ address_cmds (suc i) rest

unfoldable pub networkd_cmds : List NetworkConfig → List String
networkd_cmds [] = "systemctl restart systemd-networkd" ∷ []
networkd_cmds (nc ∷ rest) = build_networkd_file_cmd nc ∷ networkd_cmds rest

abbrev network_cmds : Bool → List NetworkConfig → List String
network_cmds true configs =
    "cloud-init clean --logs --seed --configs network && cloud-init init --local && cloud-init init"
    ∷ "cloud-init modules --mode=config && systemctl restart systemd-networkd" ∷ []
network_cmds false configs = networkd_cmds configs

-- `buildPostCloneCommands`; `cloudimg` is whether cloud-init sets the network up.
unfoldable pub build_post_clone_commands : String → String → Bool → List NetworkConfig → String
build_post_clone_commands vm_name backend cloudimg configs = join_lines (
    "echo 3 > /proc/sys/vm/drop_caches"
    ∷ concat ("echo " ∷ vm_name ∷ " > /etc/hostname" ∷ [])
    ∷ ((if backend == backend_firecracker then address_cmds 0 configs else [])
        ++ "rm -f /etc/systemd/network/10-*.network" ∷ network_cmds cloudimg configs))

-- `postClonePlan`.
pub record PostClonePlan : Type 0 where
  pub argv : List String
  pub hint : String

abbrev windows_script : String
windows_script =
    "$x=Get-PnpDevice -Class Net -PresentOnly;$x|Disable-PnpDevice -Confirm:$false;$x|Enable-PnpDevice -Confirm:$false"

-- `buildWindowsPostCloneArgv`.
unfoldable pub build_windows_post_clone_argv : List String
build_windows_post_clone_argv = "powershell" ∷ "-nop" ∷ "-c" ∷ windows_script ∷ []

abbrev windows_plan : PostClonePlan
windows_plan = record {
  argv = build_windows_post_clone_argv;
  hint = concat ("powershell -nop -c '" ∷ windows_script ∷ "'" ∷ []);
}

module _ (m : Meta) (env : Env) where
  -- The overlay on disk decides where the source image does not.
  abbrev pub uses_cloud_init : Bool → String → Io Bool
  uses_cloud_init true id = pure true
  uses_cloud_init false id = call env env.has_overlay (stat_overlay id)

  abbrev pub script_plan : VmSpec → Vm → String → Io (Option PostClonePlan)
  script_plan spec v source = do
    cloudimg ← uses_cloud_init (is_http_url source) v.id
    let script = build_post_clone_commands spec.vm_name spec.backend cloudimg v.network_configs
    pure (some (record { argv = "sh" ∷ "-c" ∷ script ∷ []; hint = script }))

  abbrev pub plan_needed : Bool → Bool → VmSpec → Vm → String → Io (Option PostClonePlan)
  plan_needed false windows spec v source = pure none
  plan_needed true true spec v source = pure (some windows_plan)
  plan_needed true false spec v source = script_plan spec v source

  -- `planPostClone`; `none` when no fixup is needed.
  unfoldable pub plan_post_clone : VmSpec → Vm → String → Io (Option PostClonePlan)
  plan_post_clone spec v source =
      plan_needed (post_clone_needed m spec v) (spec.os == m.os_windows) spec v source
