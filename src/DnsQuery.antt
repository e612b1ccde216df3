-- ===== src/DnsQuery.antt =====
-- dnsquery/dnsquery.go: a bounded history of the DNS queries that reach mihomo's resolver.
pub mod Ring
pub mod Service
mod Tests
