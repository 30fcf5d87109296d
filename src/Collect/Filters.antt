-- ===== src/Collect/Filters.antt =====
-- internal/collect/collect.go: the filters of filesystems, mounts, block devices and interfaces.
use observant_agent.Base.{
  Bool, true, ◌&&◌, ◌||◌, List, [], ◌∷◌, ◌++◌, any, is_empty, length, drop, leb, if◌then◌else◌,
}
use observant_agent.Base.Text.{Bytes, codes, bytes_eq, has_prefix, to_lower}
use observant_agent.Base.Trim.{trim_space}

abbrev pub pseudo_fstypes : List Bytes
pseudo_fstypes =
    codes "autofs"
    ∷ codes "binfmt_misc"
    ∷ codes "bpf"
    ∷ codes "cgroup"
    ∷ codes "cgroup2"
    ∷ codes "configfs"
    ∷ codes "debugfs"
    ∷ codes "devfs"
    ∷ codes "devpts"
    ∷ codes "devtmpfs"
    ∷ codes "efivarfs"
    ∷ codes "fuse.gvfsd-fuse"
    ∷ codes "fuse.lxcfs"
    ∷ codes "fuse.portal"
    ∷ codes "fuse.snapfuse"
    ∷ codes "fusectl"
    ∷ codes "hugetlbfs"
    ∷ codes "iso9660"
    ∷ codes "mqueue"
    ∷ codes "none"
    ∷ codes "nsfs"
    ∷ codes "overlay"
    ∷ codes "proc"
    ∷ codes "procfs"
    ∷ codes "pstore"
    ∷ codes "ramfs"
    ∷ codes "rpc_pipefs"
    ∷ codes "securityfs"
    ∷ codes "selinuxfs"
    ∷ codes "shm"
    ∷ codes "snapfuse"
    ∷ codes "squashfs"
    ∷ codes "sysfs"
    ∷ codes "tmpfs"
    ∷ codes "tracefs"
    ∷ []

unfoldable pub skip_fstype : Bytes → Bool
skip_fstype fstype =
    let f = to_lower (trim_space fstype) in
    if is_empty f then true else any (bytes_eq f) pseudo_fstypes

abbrev pub skip_mount_prefixes : List Bytes
skip_mount_prefixes =
    codes "/dev"
    ∷ codes "/proc"
    ∷ codes "/sys"
    ∷ codes "/run"
    ∷ codes "/var/lib/docker"
    ∷ codes "/var/lib/containers"
    ∷ codes "/var/lib/kubelet"
    ∷ codes "/snap"
    ∷ codes "/var/snap"
    ∷ codes "/System/Volumes/VM"
    ∷ codes "/System/Volumes/Preboot"
    ∷ codes "/System/Volumes/Update"
    ∷ codes "/System/Volumes/xarts"
    ∷ codes "/System/Volumes/iSCPreboot"
    ∷ codes "/System/Volumes/Hardware"
    ∷ codes "/private/var/vm"
    ∷ []

-- `clean` is `path.Clean`.
unfoldable pub skip_mount : (Bytes → Bytes) → Bytes → Bool
skip_mount clean mount =
    let m = clean mount in
    if is_empty mount
    then true
    else any (λ p. bytes_eq m p || has_prefix m (p ++ codes "/")) skip_mount_prefixes

abbrev pub skip_device_prefixes : List Bytes
skip_device_prefixes =
    codes "loop" ∷ codes "ram" ∷ codes "zram" ∷ codes "fd" ∷ codes "sr" ∷ codes "dm-" ∷ []

unfoldable pub skip_block_device : Bytes → Bool
skip_block_device name = if is_empty name then true else any (has_prefix name) skip_device_prefixes

abbrev pub skip_iface_prefixes : List Bytes
skip_iface_prefixes =
    codes "lo"
    ∷ codes "gif"
    ∷ codes "stf"
    ∷ codes "anpi"
    ∷ codes "awdl"
    ∷ codes "llw"
    ∷ codes "utun"
    ∷ codes "ap"
    ∷ []

abbrev pub skip_iface_any_prefixes : List Bytes
skip_iface_any_prefixes =
    codes "veth"
    ∷ codes "docker"
    ∷ codes "br-"
    ∷ codes "podman"
    ∷ codes "cni"
    ∷ codes "virbr"
    ∷ codes "flannel"
    ∷ codes "cali"
    ∷ codes "tap"
    ∷ codes "dummy"
    ∷ []

unfoldable pub is_digits : Bytes → Bool
is_digits [] = true
is_digits (c ∷ s) = (leb b'0' c && leb c b'9') && is_digits s

unfoldable pub skip_interface : Bytes → Bool
unfolding is_digits
skip_interface name =
    if is_empty name
    then true
    else any (λ p. bytes_eq name p || has_prefix name p && is_digits (drop (length p) name))
        skip_iface_prefixes
      || any (has_prefix name) skip_iface_any_prefixes

unfoldable pub short_device : Bytes → Bytes
short_device dev =
    if is_empty dev
    then []
    else if has_prefix dev (codes "/dev/")
    then drop (length (codes "/dev/")) dev
    else dev
