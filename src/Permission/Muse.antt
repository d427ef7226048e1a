-- ===== src/Permission/Muse.antt =====
-- helios_permissions/role_permissions.go: the permission constants of the service muse.
use helios_permission_golang.Prelude.{Str, bytes}

abbrev pub muse_author_create : Str
muse_author_create = bytes "muse:author:create"

abbrev pub muse_author_delete : Str
muse_author_delete = bytes "muse:author:delete"

abbrev pub muse_author_read : Str
muse_author_read = bytes "muse:author:read"

abbrev pub muse_blog_create : Str
muse_blog_create = bytes "muse:blog:create"

abbrev pub muse_blog_read : Str
muse_blog_read = bytes "muse:blog:read"

abbrev pub muse_drafts_read : Str
muse_drafts_read = bytes "muse:drafts:read"

abbrev pub muse_drafts_write : Str
muse_drafts_write = bytes "muse:drafts:write"

abbrev pub muse_posts_delete : Str
muse_posts_delete = bytes "muse:posts:delete"

abbrev pub muse_posts_read : Str
muse_posts_read = bytes "muse:posts:read"

abbrev pub muse_posts_write : Str
muse_posts_write = bytes "muse:posts:write"
